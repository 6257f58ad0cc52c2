-- ===== src/Bridge/Plan.antt =====
-- main.go: the bridges that `hostMode` and `enclaveMode` start, and where each listens and dials.
pub mod Agreement
use argonaut.Config.Check.{endpoint_local_ip}
use argonaut.Config.Schema.{Endpoint, Config}
use argonaut.Text.Decimal.{itoa}
use argonaut.Prelude.{
  ℕ, ◌+◌, Bool, true, false, ◌||◌, List, [], ◌∷◌, ◌++◌, map, Option, none, some, Bytes, ◌==◌, codes,
  if◌then◌else◌,
}

abbrev pub parent_cid : ℕ
parent_cid = 3

-- A goroutine with an accept loop, by the function that it runs and that one's arguments.
pub data Bridge : Type 0 where
  host_inbound : (tcp_port cid vsock_port : ℕ) → Bridge
  host_outbound : (ep : Endpoint) (expected_cid : ℕ) → Bridge
  inbound : (vsock_port tcp_port expected_cid : ℕ) → Bridge
  outbound : (local_ip : Bytes) (ep : Endpoint) → Bridge

-- An address to listen on or to dial.
pub data Address : Type 0 where
  tcp : Bytes → Address
  vsock : (cid port : ℕ) → Address
  vsock_any : (port : ℕ) → Address

has_colon : Bytes → Bool
has_colon [] = false
has_colon (c ∷ s) = c == b':' || has_colon s

-- `net.JoinHostPort`
unfoldable pub join_host_port : Bytes → ℕ → Bytes
unfolding has_colon
join_host_port host port =
    if has_colon host then b'[' ∷ host ++ b']' ∷ b':' ∷ itoa port else host ++ b':' ∷ itoa port

-- The argument of `net.Listen` or `vsock.Listen`; `bind` is `configuredHostHTTPBindAddr`.
abbrev pub listen_address : Bytes → Bridge → Address
listen_address bind (host_inbound tcp_port cid vsock_port) = tcp (join_host_port bind tcp_port)
listen_address bind (host_outbound ep expected_cid) = vsock_any ep.vsock_port
listen_address bind (inbound vsock_port tcp_port expected_cid) = vsock_any vsock_port
listen_address bind (outbound local_ip ep) = tcp (join_host_port local_ip ep.local_port)

-- What the bridge of an accepted connection dials.
abbrev pub dial_address : Bridge → Address
dial_address (host_inbound tcp_port cid vsock_port) = vsock cid vsock_port
dial_address (host_outbound ep expected_cid) = tcp (join_host_port ep.host ep.tcp_port)
dial_address (inbound vsock_port tcp_port expected_cid) =
    tcp (join_host_port (codes "127.0.0.1") tcp_port)
dial_address (outbound local_ip ep) = vsock parent_cid ep.vsock_port

host_outbounds : ℕ → List Endpoint → List Bridge
host_outbounds cid [] = []
host_outbounds cid (ep ∷ eps) = host_outbound ep cid ∷ host_outbounds cid eps

outbounds : ℕ → List Endpoint → List Bridge
outbounds i [] = []
outbounds i (ep ∷ eps) = outbound (endpoint_local_ip ep i) ep ∷ outbounds (i + 1) eps

-- the range over a slice, which is empty where the slice is nil
abbrev pub endpoint_list : Config → List Endpoint
endpoint_list cfg = elim cfg.endpoints [ none ↦ [] | some eps ↦ eps ]

-- What `hostMode` starts for a validated configuration.
unfoldable pub host_bridges : ℕ → Config → List Bridge
unfolding host_outbounds
host_bridges cid cfg =
    host_inbound cfg.http_port cid cfg.http_vsock_port ∷ host_outbounds cid (endpoint_list cfg)

-- What `enclaveMode` starts for a validated configuration.
unfoldable pub enclave_bridges : Config → List Bridge
unfolding outbounds
enclave_bridges cfg =
    inbound cfg.http_vsock_port cfg.http_tcp_port parent_cid ∷ outbounds 0 (endpoint_list cfg)
