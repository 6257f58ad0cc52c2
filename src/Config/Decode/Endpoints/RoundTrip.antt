-- ===== src/Config/Decode/Endpoints/RoundTrip.antt =====
-- config.go: the decoding of an endpoint that was written out.
use argonaut.Config.Decode.Encode.{opt_member, uint, endpoint_members, endpoint_items}
use argonaut.Config.Decode.Endpoints.{IsText, IsPort, IsDecoded}
use argonaut.Config.Decode.{
  zero_endpoint, if_present, store_host, store_vsock_port, store_tcp_port, store_local_port,
  store_local_ip, is_endpoint_key, known_fields, decode_fields, decode_endpoint, decode_elements,
}
use argonaut.Config.Schema.{Endpoint}
use argonaut.Json.Decode.Widths.{decode_uint-itoa}
use argonaut.Json.Decode.{decode_text}
use argonaut.Json.Value.{Json, Members, text, object, items, members, no_members, find}
use argonaut.Prelude.{
  ℕ, ◌≡◌, refl, ◌∙◌, Bool, true, false, List, [], ◌∷◌, Option, none, some, ok, Bytes, codes, equal,
  All, Option-cases, inl, inr,
}

-- what a map holds of a key that was written on that condition
abbrev given : Bool → Json → Option Json
given true v = some v
given false v = none

find_other :
    (key k : Bytes) (set : Bool) (v : Json) (ms : Members)
    → equal k key ≡ false
    → find key (members (opt_member set k v ms)) ≡ find key (members ms)
unfolding find
find_other key k false v ms h = refl
find_other key k true v ms h = elim (Option-cases (find key (members ms))) [
  | inl e ↦ rw (e, h)
  | inr (w, e) ↦ rw (e)
]

find_here :
    (key : Bytes) (set : Bool) (v : Json) (ms : Members)
    → equal key key ≡ true
    → find key (members ms) ≡ none
    → find key (members (opt_member set key v ms)) ≡ given set v
unfolding find
find_here key false v ms h e = e
find_here key true v ms h e = rw (e, h)

known_opt_member :
    (k : Bytes) (set : Bool) (v : Json) (ms : Members)
    → is_endpoint_key k ≡ true
    → known_fields (members ms) ≡ true
    → known_fields (members (opt_member set k v ms)) ≡ true
unfolding known_fields
known_opt_member k false v ms h r = r
known_opt_member k true v ms h r = rw (h, r)

-- Each key that was set stores what its field holds; the others hold zero.
store_host_stage :
    (set : Bool) (s : Bytes)
    → IsText set s
    → if_present (given set (text s)) store_host zero_endpoint
      ≡ ok (record zero_endpoint { host = s; host_set = set })
unfolding if_present store_host decode_text
store_host_stage true s h = refl
store_host_stage false s h = rw h

store_vsock_port_stage :
    (e : Endpoint) (set : Bool) (n : ℕ)
    → IsPort 32 0 set n
    → if_present
        (given set (uint n))
        store_vsock_port
        (record e { vsock_port = 0; vsock_port_set = false })
      ≡ ok (record e { vsock_port = n; vsock_port_set = set })
unfolding if_present store_vsock_port
store_vsock_port_stage e true n h = rw (decode_uint-itoa 32 0 n h.0)
store_vsock_port_stage e false n h = rw (h.1)

store_tcp_port_stage :
    (e : Endpoint) (set : Bool) (n : ℕ)
    → IsPort 16 0 set n
    → if_present
        (given set (uint n))
        store_tcp_port
        (record e { tcp_port = 0; tcp_port_set = false })
      ≡ ok (record e { tcp_port = n; tcp_port_set = set })
unfolding if_present store_tcp_port
store_tcp_port_stage e true n h = rw (decode_uint-itoa 16 0 n h.0)
store_tcp_port_stage e false n h = rw (h.1)

store_local_port_stage :
    (e : Endpoint) (set : Bool) (n : ℕ)
    → IsPort 16 0 set n
    → if_present
        (given set (uint n))
        store_local_port
        (record e { local_port = 0; local_port_set = false })
      ≡ ok (record e { local_port = n; local_port_set = set })
unfolding if_present store_local_port
store_local_port_stage e true n h = rw (decode_uint-itoa 16 0 n h.0)
store_local_port_stage e false n h = rw (h.1)

store_local_ip_stage :
    (e : Endpoint) (set : Bool) (s : Bytes)
    → IsText set s
    → if_present
        (given set (text s))
        store_local_ip
        (record e { local_ip = []; local_ip_set = false })
      ≡ ok (record e { local_ip = s; local_ip_set = set })
unfolding if_present store_local_ip decode_text
store_local_ip_stage e true s h = refl
store_local_ip_stage e false s h = rw h

-- the members of an endpoint from each key on
module _ (e : Endpoint) where
  abbrev from_ip : Members
  from_ip = opt_member e.local_ip_set (codes "localIP") (text e.local_ip) no_members

  abbrev from_local : Members
  from_local = opt_member e.local_port_set (codes "localPort") (uint e.local_port) from_ip

  abbrev from_tcp : Members
  from_tcp = opt_member e.tcp_port_set (codes "tcpPort") (uint e.tcp_port) from_local

  abbrev from_vsock : Members
  from_vsock = opt_member e.vsock_port_set (codes "vsockPort") (uint e.vsock_port) from_tcp

  -- a key that is none of those from there on
  not_from_ip :
      (key : Bytes) → equal (codes "localIP") key ≡ false → find key (members from_ip) ≡ none
  unfolding find
  not_from_ip key h = find_other key (codes "localIP") e.local_ip_set _ no_members h

  not_from_local :
      (key : Bytes)
      → equal (codes "localPort") key ≡ false
      → equal (codes "localIP") key ≡ false
      → find key (members from_local) ≡ none
  not_from_local key g h =
      find_other key (codes "localPort") e.local_port_set _ from_ip g ∙ not_from_ip key h

  not_from_tcp :
      (key : Bytes)
      → equal (codes "tcpPort") key ≡ false
      → equal (codes "localPort") key ≡ false
      → equal (codes "localIP") key ≡ false
      → find key (members from_tcp) ≡ none
  not_from_tcp key f g h =
      find_other key (codes "tcpPort") e.tcp_port_set _ from_local f ∙ not_from_local key g h

  find_host : find (codes "host") (members (endpoint_members e)) ≡ given e.host_set (text e.host)
  unfolding equal
  find_host = find_here (codes "host") e.host_set _ from_vsock refl (
      find_other (codes "host") (codes "vsockPort") e.vsock_port_set _ from_tcp refl
      ∙ not_from_tcp (codes "host") refl refl refl)

  -- past the host
  find_behind :
      (key : Bytes)
      → equal (codes "host") key ≡ false
      → find key (members (endpoint_members e)) ≡ find key (members from_vsock)
  find_behind key h = find_other key (codes "host") e.host_set _ from_vsock h

  find_vsock_port :
      find (codes "vsockPort") (members (endpoint_members e))
      ≡ given e.vsock_port_set (uint e.vsock_port)
  unfolding equal
  find_vsock_port =
      find_behind (codes "vsockPort") refl
      ∙ find_here (codes "vsockPort") e.vsock_port_set _ from_tcp refl
          (not_from_tcp (codes "vsockPort") refl refl refl)

  find_tcp_port :
      find (codes "tcpPort") (members (endpoint_members e)) ≡ given e.tcp_port_set (uint e.tcp_port)
  unfolding equal
  find_tcp_port =
      find_behind (codes "tcpPort") refl
      ∙ find_other (codes "tcpPort") (codes "vsockPort") e.vsock_port_set _ from_tcp refl
      ∙ find_here (codes "tcpPort") e.tcp_port_set _ from_local refl
          (not_from_local (codes "tcpPort") refl refl)

  find_local_port :
      find (codes "localPort") (members (endpoint_members e))
      ≡ given e.local_port_set (uint e.local_port)
  unfolding equal
  find_local_port =
      find_behind (codes "localPort") refl
      ∙ find_other (codes "localPort") (codes "vsockPort") e.vsock_port_set _ from_tcp refl
      ∙ find_other (codes "localPort") (codes "tcpPort") e.tcp_port_set _ from_local refl
      ∙ find_here (codes "localPort") e.local_port_set _ from_ip refl
          (not_from_ip (codes "localPort") refl)

  find_local_ip :
      find (codes "localIP") (members (endpoint_members e)) ≡ given e.local_ip_set (text e.local_ip)
  unfolding find equal
  find_local_ip =
      find_behind (codes "localIP") refl
      ∙ find_other (codes "localIP") (codes "vsockPort") e.vsock_port_set _ from_tcp refl
      ∙ find_other (codes "localIP") (codes "tcpPort") e.tcp_port_set _ from_local refl
      ∙ find_other (codes "localIP") (codes "localPort") e.local_port_set _ from_ip refl
      ∙ find_here (codes "localIP") e.local_ip_set _ no_members refl refl

  known_endpoint_members : known_fields (members (endpoint_members e)) ≡ true
  unfolding known_fields is_endpoint_key equal
  known_endpoint_members = known_opt_member (codes "host") e.host_set _ from_vsock refl (
      known_opt_member (codes "vsockPort") e.vsock_port_set _ from_tcp refl (
        known_opt_member (codes "tcpPort") e.tcp_port_set _ from_local refl (
          known_opt_member (codes "localPort") e.local_port_set _ from_ip refl
            (known_opt_member (codes "localIP") e.local_ip_set _ no_members refl refl))))

  decode_endpoint_members :
      IsDecoded e → decode_endpoint zero_endpoint (object (endpoint_members e)) ≡ ok e
  unfolding decode_endpoint decode_fields
  decode_endpoint_members (a, b, c, d, f) =
      let e1 : Endpoint = record zero_endpoint { host = e.host; host_set = e.host_set } in
      let e2 : Endpoint = record e1 {
        vsock_port = e.vsock_port;
        vsock_port_set = e.vsock_port_set;
      } in
      let e3 : Endpoint = record e2 { tcp_port = e.tcp_port; tcp_port_set = e.tcp_port_set } in
      let e4 : Endpoint = record e3 {
        local_port = e.local_port;
        local_port_set = e.local_port_set;
      } in
      rw
        (
          known_endpoint_members, find_host, find_vsock_port, find_tcp_port, find_local_port,
          find_local_ip,
        )
        (rw (store_host_stage e.host_set e.host a) (
          rw (store_vsock_port_stage e1 e.vsock_port_set e.vsock_port b) (
            rw (store_tcp_port_stage e2 e.tcp_port_set e.tcp_port c) (
              rw (store_local_port_stage e3 e.local_port_set e.local_port d)
                (rw (store_local_ip_stage e4 e.local_ip_set e.local_ip f))))))

pub decode_elements-endpoint_items :
    (es : List Endpoint) → All IsDecoded es → decode_elements [] (items (endpoint_items es)) ≡ ok es
unfolding decode_elements
decode_elements-endpoint_items [] h = refl
decode_elements-endpoint_items (e ∷ es) (k, h) =
    rw (decode_endpoint_members e k, decode_elements-endpoint_items es h)
