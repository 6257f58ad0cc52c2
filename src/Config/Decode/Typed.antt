-- ===== src/Config/Decode/Typed.antt =====
-- config.go: the configurations that `ParseConfig` returns.
use argonaut.Config.Decode.{
  zero_config, decode_elements, Draft, store_endpoints, store_schema_version, store_http_port,
  store_http_vsock_port, store_http_tcp_port, Field, schema_version, http_port, http_vsock_port,
  http_tcp_port, endpoints, field_of, store_field, store_members, decode_members, decode_config,
  invalid_config_json, parse_config,
}
use mathlib.Core.Option
use argonaut.Config.Decode.Endpoints.{
  IsDecoded, IsRead, decode_elements-IsDecoded, replaced-IsDecoded, IsPort,
}
use argonaut.Config.Schema.{
  Endpoint, Config, normalize_config, normalize_endpoint, default_tcp_port, max_config_bytes,
}
use argonaut.Json.Decode.{DecodeError, decode_text, decode_uint}
use argonaut.Json.Decode.Widths.{decode_uint-IsUint}
use argonaut.Json.Parse.{parse_json}
use argonaut.Json.Value.{Json, null, bool, number, text, array, object, items, members}
use argonaut.Prelude.{
  ℕ, ◌^◌, ◌≤◌, ◌<◌, ◌≡◌, refl, Bool, true, false, List, [], ◌∷◌, Option, none, some, Result, ok,
  >>=-eq-ok, Ensures, >>=-Ensures, Ensures-any, Ensures-ok, map_err, map_err-eq-ok, Bytes, length,
  ltb, arith, All, map, if◌then◌else◌, Bool-cases, inl, inr,
}

abbrev pub AllDecoded : Option (List Endpoint) → Type 0
AllDecoded none = Unit
AllDecoded (some es) = All IsDecoded es

abbrev IsDraft : Draft → Type 0
IsDraft d =
    (d.config.http_port < 2 ^ 16)
    × (d.config.http_vsock_port < 2 ^ 32)
    × (d.config.http_tcp_port < 2 ^ 16)
    × AllDecoded d.config.endpoints
    × All IsDecoded d.backing

abbrev Preserves : (Draft → Json → Result DecodeError Draft) → Type 0
Preserves store = (d : Draft) (v : Json) → IsDraft d → Ensures IsDraft (store d v)

store_endpoints-Preserves : Preserves store_endpoints
unfolding store_endpoints
store_endpoints-Preserves d null (a, b, c, s, r) = (a, b, c, tt, tt)
store_endpoints-Preserves d (array vs) (a, b, c, s, r) =
    >>=-Ensures _ _ (decode_elements d.backing (items vs)) _
      (decode_elements-IsDecoded d.backing (items vs) r)
      λ es p. (a, b, c, p, replaced-IsDecoded d.backing es r p)
store_endpoints-Preserves d (bool b) k = tt
store_endpoints-Preserves d (number b) k = tt
store_endpoints-Preserves d (text b) k = tt
store_endpoints-Preserves d (object b) k = tt

store_field-Preserves : (f : Option Field) → Preserves (store_field f)
unfolding store_field store_schema_version store_http_port store_http_vsock_port store_http_tcp_port
store_field-Preserves none d v k = k
store_field-Preserves (some schema_version) d v k =
    >>=-Ensures _ _ (decode_text d.config.schema_version v) _ (Ensures-any _) λ s p. k
store_field-Preserves (some http_port) d v (a, b, c, s, r) =
    >>=-Ensures _ _ (decode_uint 16 d.config.http_port v) _ (decode_uint-IsUint 16 _ v a)
      λ n p. (p, b, c, s, r)
store_field-Preserves (some http_vsock_port) d v (a, b, c, s, r) =
    >>=-Ensures _ _ (decode_uint 32 d.config.http_vsock_port v) _ (decode_uint-IsUint 32 _ v b)
      λ n p. (a, p, c, s, r)
store_field-Preserves (some http_tcp_port) d v (a, b, c, s, r) =
    >>=-Ensures _ _ (decode_uint 16 d.config.http_tcp_port v) _ (decode_uint-IsUint 16 _ v c)
      λ n p. (a, b, p, s, r)
store_field-Preserves (some endpoints) d v k = store_endpoints-Preserves d v k

store_members-Preserves :
    (d : Draft) (raw : List (Bytes × Json)) → IsDraft d → Ensures IsDraft (store_members d raw)
unfolding store_members
store_members-Preserves d [] k = k
store_members-Preserves d ((key, v) ∷ raw) k =
    >>=-Ensures _ _ (store_field (field_of key) d v) _ (store_field-Preserves (field_of key) d v k)
      λ d' k'. store_members-Preserves d' raw k'

default-IsPort :
    (set : Bool) (n : ℕ)
    → IsPort 16 0 set n
    → IsPort 16 default_tcp_port set (if set then n else default_tcp_port)
default-IsPort true n h = (h.0, tt)
default-IsPort false n h = (omega arith, refl)

normalize_endpoint-IsRead : (e : Endpoint) → IsDecoded e → IsRead (normalize_endpoint e)
unfolding normalize_endpoint
normalize_endpoint-IsRead e (a, b, c, d, f) = (
  a,
  b,
  default-IsPort e.tcp_port_set e.tcp_port c,
  default-IsPort e.local_port_set e.local_port d,
  f,
)

abbrev AllRead : Option (List Endpoint) → Type 0
AllRead none = Unit
AllRead (some es) = All IsRead es

-- Of a configuration that is read: the integers fit, and what no key set has its default.
abbrev pub IsReadConfig : Config → Type 0
IsReadConfig cfg =
    (cfg.http_port < 2 ^ 16)
    × (cfg.http_vsock_port < 2 ^ 32)
    × (cfg.http_tcp_port < 2 ^ 16)
    × AllRead cfg.endpoints

normalized : (es : List Endpoint) → All IsDecoded es → All IsRead (map normalize_endpoint es)
normalized [] h = tt
normalized (e ∷ es) (k, h) = (normalize_endpoint-IsRead e k, normalized es h)

abbrev pub IsDecodedConfig : Config → Type 0
IsDecodedConfig cfg =
    (cfg.http_port < 2 ^ 16)
    × (cfg.http_vsock_port < 2 ^ 32)
    × (cfg.http_tcp_port < 2 ^ 16)
    × AllDecoded cfg.endpoints

normalized-IsReadConfig : (cfg : Config) → IsDecodedConfig cfg → IsReadConfig (normalize_config cfg)
unfolding normalize_config
normalized-IsReadConfig cfg (a, b, c, s) = (a, b, c, slice cfg.endpoints s)
  where
    slice :
        (o : Option (List Endpoint))
        → AllDecoded o
        → AllRead (Option.map (map normalize_endpoint) o)
    slice none h = tt
    slice (some es) h = normalized es h

members-IsDecodedConfig : (raw : List (Bytes × Json)) → Ensures IsDecodedConfig (decode_members raw)
unfolding decode_members
members-IsDecodedConfig raw =
    let start : Draft = record { config = zero_config; backing = [] } in
    >>=-Ensures _ _ (store_members start raw) _
      (store_members-Preserves start raw (omega arith, omega arith, omega arith, tt, tt))
      λ d (a, b, c, s, r). (a, b, c, s)

decode_config-IsDecodedConfig : (v : Json) → Ensures IsDecodedConfig (decode_config v)
unfolding decode_config
decode_config-IsDecodedConfig null = members-IsDecodedConfig []
decode_config-IsDecodedConfig (object ms) = members-IsDecodedConfig (members ms)
decode_config-IsDecodedConfig (bool b) = tt
decode_config-IsDecodedConfig (number b) = tt
decode_config-IsDecodedConfig (text b) = tt
decode_config-IsDecodedConfig (array b) = tt

-- The steps behind a configuration that is read.
pub record ReadBy (raw : Bytes) (cfg : Config) : Type 0 where
  pub json : Json
  pub decoded : Config
  pub fits : length raw ≤ max_config_bytes
  pub parses : parse_json raw ≡ ok json
  pub decodes : decode_config json ≡ ok decoded
  pub result : cfg ≡ normalize_config decoded

pub parse_config-ReadBy : (raw : Bytes) (cfg : Config) → parse_config raw ≡ ok cfg → ReadBy raw cfg
unfolding parse_config
parse_config-ReadBy raw cfg h = elim (Bool-cases (ltb max_config_bytes (length raw))) [
  | inl e ↦ absurd (let h' = rw e at h in cc)
  | inr e ↦
      let h' = rw e at h in
      let (v, parses, h1) = >>=-eq-ok (map_err (λ x. invalid_config_json) (parse_json raw)) _ h' in
      let (c, decodes, h2) =
        >>=-eq-ok (map_err (λ x. invalid_config_json) (decode_config v)) _ h1 in
      record {
        json = v;
        decoded = c;
        fits = ground arith;
        parses = map_err-eq-ok _ (parse_json raw) parses;
        decodes = map_err-eq-ok _ (decode_config v) decodes;
        result = cc;
      }
]

-- Every configuration that is read has integers that fit their Go types, in its endpoints too, and
-- there what no key has set is empty or 0, the ports `tcpPort` and `localPort` 443.
pub parse_config-IsReadConfig :
    (raw : Bytes) (cfg : Config) → parse_config raw ≡ ok cfg → IsReadConfig cfg
parse_config-IsReadConfig raw cfg h =
    let r = parse_config-ReadBy raw cfg h in
    rw r.result (
      normalized-IsReadConfig r.decoded (
        Ensures-ok IsDecodedConfig (decode_config r.json) (decode_config-IsDecodedConfig r.json)
          r.decodes))
