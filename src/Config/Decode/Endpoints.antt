-- ===== src/Config/Decode/Endpoints.antt =====
-- config.go: the endpoints that are decoded.
pub mod RoundTrip
use argonaut.Config.Decode.{
  zero_endpoint, zero_config, if_present, store_host, store_vsock_port, store_tcp_port,
  store_local_port, store_local_ip, known_fields, decode_fields, decode_endpoint, decode_elements,
  Draft, replaced, store_endpoints, store_schema_version, store_http_port, store_http_vsock_port,
  store_http_tcp_port, Field, schema_version, http_port, http_vsock_port, http_tcp_port, endpoints,
  field_of, store_field, store_members, decode_members, decode_config, ParseConfigError,
  config_too_large, invalid_config_json, parse_config,
}
use mathlib.Core.Option
use argonaut.Config.Schema.{
  Endpoint, Config, normalize_config, normalize_endpoint, default_tcp_port, max_config_bytes,
}
use argonaut.Json.Decode.{DecodeError, unknown_field, decode_text, decode_uint}
use argonaut.Json.Decode.Widths.{decode_uint-IsUint}
use argonaut.Json.Parse.{parse_json}
use argonaut.Json.Value.{Json, null, bool, number, text, array, object, items, members, find}
use argonaut.Prelude.{
  ℕ, zero, suc, ◌+◌, ◌^◌, ◌≤◌, ◌<◌, ◌≡◌, refl, Bool, true, false, List, [], ◌∷◌, ◌++◌, Option, none,
  some, Result, ok, err, ◌>>=◌, ◌>>◌, >>=-eq-ok, Ensures, >>=-Ensures, >>-Ensures, Ensures-any,
  Ensures-ok, map_err, map_err-eq-ok, require, Bytes, codes, length, drop, equal, ltb, arith, All,
  map, All-map, if◌then◌else◌, Bool-cases, Option-cases, inl, inr,
}

-- The integers fit the Go types, and what a key did not set is zero.
abbrev pub Unset : Bool → Type 0 → Type 0
Unset true P = Unit
Unset false P = P

abbrev pub IsText : Bool → Bytes → Type 0
IsText set s = Unset set (s ≡ [])

abbrev pub IsPort : ℕ → ℕ → Bool → ℕ → Type 0
IsPort width default set n = (n < 2 ^ width) × Unset set (n ≡ default)

abbrev pub HasDefault : ℕ → Endpoint → Type 0
HasDefault default e =
    IsText e.host_set e.host
    × IsPort 32 0 e.vsock_port_set e.vsock_port
    × IsPort 16 default e.tcp_port_set e.tcp_port
    × IsPort 16 default e.local_port_set e.local_port
    × IsText e.local_ip_set e.local_ip

abbrev pub IsDecoded : Endpoint → Type 0
IsDecoded = HasDefault 0

abbrev pub IsRead : Endpoint → Type 0
IsRead = HasDefault default_tcp_port

zero_endpoint-IsDecoded : IsDecoded zero_endpoint
zero_endpoint-IsDecoded =
    (refl, (omega arith, refl), (omega arith, refl), (omega arith, refl), refl)

-- Storing a field keeps this.
abbrev Keeps : (Endpoint → Json → Result DecodeError Endpoint) → Type 0
Keeps store = (e : Endpoint) (v : Json) → IsDecoded e → Ensures IsDecoded (store e v)

store_host-Keeps : Keeps store_host
unfolding store_host
store_host-Keeps e v (a, b, c, d, f) =
    >>=-Ensures _ _ (decode_text e.host v) _ (Ensures-any _) λ s p. (tt, b, c, d, f)

store_vsock_port-Keeps : Keeps store_vsock_port
unfolding store_vsock_port
store_vsock_port-Keeps e v (a, b, c, d, f) =
    >>=-Ensures _ _ (decode_uint 32 e.vsock_port v) _ (decode_uint-IsUint 32 _ v b.0)
      λ n p. (a, (p, tt), c, d, f)

store_tcp_port-Keeps : Keeps store_tcp_port
unfolding store_tcp_port
store_tcp_port-Keeps e v (a, b, c, d, f) =
    >>=-Ensures _ _ (decode_uint 16 e.tcp_port v) _ (decode_uint-IsUint 16 _ v c.0)
      λ n p. (a, b, (p, tt), d, f)

store_local_port-Keeps : Keeps store_local_port
unfolding store_local_port
store_local_port-Keeps e v (a, b, c, d, f) =
    >>=-Ensures _ _ (decode_uint 16 e.local_port v) _ (decode_uint-IsUint 16 _ v d.0)
      λ n p. (a, b, c, (p, tt), f)

store_local_ip-Keeps : Keeps store_local_ip
unfolding store_local_ip
store_local_ip-Keeps e v (a, b, c, d, f) =
    >>=-Ensures _ _ (decode_text e.local_ip v) _ (Ensures-any _) λ s p. (a, b, c, d, tt)

if_present-Keeps :
    (o : Option Json) (store : Endpoint → Json → Result DecodeError Endpoint) (e : Endpoint)
    → Keeps store
    → IsDecoded e
    → Ensures IsDecoded (if_present o store e)
unfolding if_present
if_present-Keeps none store e keeps k = k
if_present-Keeps (some v) store e keeps k = keeps e v k

decode_fields-IsDecoded :
    (e : Endpoint) (raw : List (Bytes × Json))
    → IsDecoded e
    → Ensures IsDecoded (decode_fields e raw)
unfolding decode_fields
decode_fields-IsDecoded e raw k = >>-Ensures _ (require (known_fields raw) unknown_field) _ (
    >>=-Ensures _ _ (if_present (find (codes "host") raw) store_host e) _
      (if_present-Keeps (find (codes "host") raw) store_host e store_host-Keeps k)
      λ e1 k1.
        >>=-Ensures _ _ (if_present (find (codes "vsockPort") raw) store_vsock_port e1) _
          (if_present-Keeps (find (codes "vsockPort") raw) store_vsock_port e1
            store_vsock_port-Keeps k1)
          λ e2 k2.
            >>=-Ensures _ _ (if_present (find (codes "tcpPort") raw) store_tcp_port e2) _
              (if_present-Keeps (find (codes "tcpPort") raw) store_tcp_port e2 store_tcp_port-Keeps
                k2)
              λ e3 k3.
                >>=-Ensures _ _ (if_present (find (codes "localPort") raw) store_local_port e3) _
                  (if_present-Keeps (find (codes "localPort") raw) store_local_port e3
                    store_local_port-Keeps k3)
                  λ e4 k4.
                    if_present-Keeps (find (codes "localIP") raw) store_local_ip e4
                      store_local_ip-Keeps k4)

decode_endpoint-IsDecoded : Keeps decode_endpoint
unfolding decode_endpoint
decode_endpoint-IsDecoded e null k = decode_fields-IsDecoded e [] k
decode_endpoint-IsDecoded e (object ms) k = decode_fields-IsDecoded e (members ms) k
decode_endpoint-IsDecoded e (bool b) k = tt
decode_endpoint-IsDecoded e (number b) k = tt
decode_endpoint-IsDecoded e (text b) k = tt
decode_endpoint-IsDecoded e (array b) k = tt

pub decode_elements-IsDecoded :
    (backing : List Endpoint) (vs : List Json)
    → All IsDecoded backing
    → Ensures (All IsDecoded) (decode_elements backing vs)
unfolding decode_elements
decode_elements-IsDecoded backing [] h = tt
decode_elements-IsDecoded [] (v ∷ vs) h =
    >>=-Ensures _ _ (decode_endpoint zero_endpoint v) _
      (decode_endpoint-IsDecoded zero_endpoint v zero_endpoint-IsDecoded)
      λ e p.
        >>=-Ensures _ _ (decode_elements [] vs) _ (decode_elements-IsDecoded [] vs tt)
          λ es ps. (p, ps)
decode_elements-IsDecoded (b ∷ backing) (v ∷ vs) (k, h) =
    >>=-Ensures _ _ (decode_endpoint b v) _ (decode_endpoint-IsDecoded b v k) λ e p.
      >>=-Ensures _ _ (decode_elements backing vs) _ (decode_elements-IsDecoded backing vs h)
        λ es ps. (p, ps)

All-drop : (n : ℕ) (es : List Endpoint) → All IsDecoded es → All IsDecoded (drop n es)
All-drop zero es h = h
All-drop (suc n) [] h = h
All-drop (suc n) (e ∷ es) (k, h) = All-drop n es h

All-append :
    (es fs : List Endpoint) → All IsDecoded es → All IsDecoded fs → All IsDecoded (es ++ fs)
All-append [] fs h k = k
All-append (e ∷ es) fs (p, h) k = (p, All-append es fs h k)

pub replaced-IsDecoded :
    (backing es : List Endpoint)
    → All IsDecoded backing
    → All IsDecoded es
    → All IsDecoded (replaced backing es)
unfolding replaced
replaced-IsDecoded backing [] h k = tt
replaced-IsDecoded backing (e ∷ es) h k =
    All-append (e ∷ es) _ k (All-drop (length (e ∷ es)) backing h)
