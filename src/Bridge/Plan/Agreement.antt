-- ===== src/Bridge/Plan/Agreement.antt =====
-- main.go: the bridges of the host and of the enclave, for one configuration.
use argonaut.Bridge.Plan.{
  Bridge, host_inbound, host_outbound, inbound, outbound, Address, tcp, vsock, vsock_any,
  listen_address, dial_address, parent_cid, has_colon, join_host_port, host_outbounds, outbounds,
  endpoint_list, host_bridges, enclave_bridges,
}
use argonaut.Bridge.Accept.Admission.{PeerAllowed}
use argonaut.Bridge.Accept.{Conn, vsock_addr}
use argonaut.Config.Address.{endpoint_local_ip-IsIpByte, IsIpByte}
use argonaut.Config.Check.{IsEndpoint, endpoint_local_ip}
use argonaut.Config.Schema.{Endpoint, Config, ValidationMode, host, enclave, normalize_config}
use argonaut.Config.Validate.Rounds.{local_addrs}
use argonaut.Config.Validate.Spec.{IsConfig, addrs_iff, validate_config_iff}
use argonaut.Config.Validate.{local_addr, validate_config}
use argonaut.Prelude.{
  ℕ, ◌+◌, ◌≡◌, refl, ap, false, List, [], ◌∷◌, map, Bytes, All, Lacks, Distinct, Distinct-map,
  arith, ok, some,
}

-- The bridge of a process in the VM `from` dials the VM `to` and the port that the listener there
-- has, and the listener serves the connections that come from `from`.
pub record Meets (dialer listener : Bridge) (bind : Bytes) (from to : ℕ) : Type 0 where
  pub port : ℕ
  pub dials : dial_address dialer ≡ vsock to port
  pub listens : listen_address bind listener ≡ vsock_any port
  pub serves :
      (conn : Conn) (from_port : ℕ)
      → conn.remote_addr ≡ vsock_addr from from_port
      → PeerAllowed listener conn

-- The bridges of the two sides, one after the other: the enclave's outbound bridges dial the
-- host's, each of which serves the enclave's CID and dials the endpoint. The CID of a parent
-- instance is 3.
pub data Forwards (bind : Bytes) (cid : ℕ)
    : List Endpoint → List Bridge → List Bridge → Type 0 where
  done : Forwards bind cid [] [] []
  next :
      {eps : List Endpoint} {hs es : List Bridge} {ep : Endpoint} {ip : Bytes}
      → Meets (outbound ip ep) (host_outbound ep cid) bind cid 3
      → dial_address (host_outbound ep cid) ≡ tcp (join_host_port ep.host ep.tcp_port)
      → Forwards bind cid eps hs es
      → Forwards bind cid (ep ∷ eps) (host_outbound ep cid ∷ hs) (outbound ip ep ∷ es)

outbounds-Forwards :
    (bind : Bytes) (cid i : ℕ) (eps : List Endpoint)
    → Forwards bind cid eps (host_outbounds cid eps) (outbounds i eps)
unfolding host_outbounds outbounds
outbounds-Forwards bind cid i [] = done
outbounds-Forwards bind cid i (ep ∷ eps) =
    next
      (record { port = ep.vsock_port; dials = refl; listens = refl; serves = λ conn p h. (p, h) })
      refl (outbounds-Forwards bind cid (i + 1) eps)

-- The VSOCK port of an endpoint, as the host's listener has it.
abbrev ports_any : List Endpoint → List Address
ports_any eps = map vsock_any (map (λ ep. ep.vsock_port) eps)

host_outbounds-listen :
    (bind : Bytes) (cid : ℕ) (eps : List Endpoint)
    → map (listen_address bind) (host_outbounds cid eps) ≡ ports_any eps
unfolding host_outbounds
host_outbounds-listen bind cid [] = refl
host_outbounds-listen bind cid (ep ∷ eps) =
    ap (◌∷◌ (vsock_any ep.vsock_port)) (host_outbounds-listen bind cid eps)

All-true : (ns : List ℕ) → All (λ n. Unit {0}) ns
All-true [] = tt
All-true (n ∷ ns) = (tt, All-true ns)

tcp-Lacks : (a : Bytes) (ns : List ℕ) → Lacks (tcp a) (map vsock_any ns)
tcp-Lacks a [] = tt
tcp-Lacks a (n ∷ ns) = (λ h. cc, tcp-Lacks a ns)

no_colon : (ip : Bytes) → All IsIpByte ip → has_colon ip ≡ false
unfolding has_colon
no_colon [] h = refl
no_colon (c ∷ s) (d, h) = ground (arith, no_colon s h)

join_host_port-local_addr :
    (ep : Endpoint) (i : ℕ)
    → IsEndpoint ep
    → join_host_port (endpoint_local_ip ep i) ep.local_port ≡ local_addr ep i
unfolding join_host_port
join_host_port-local_addr ep i v =
    rw (no_colon (endpoint_local_ip ep i) (endpoint_local_ip-IsIpByte ep i v))

outbounds-listen :
    (bind : Bytes) (i : ℕ) (eps : List Endpoint)
    → All IsEndpoint eps
    → map (listen_address bind) (outbounds i eps) ≡ map tcp (local_addrs i eps)
unfolding outbounds
outbounds-listen bind i [] h = refl
outbounds-listen bind i (ep ∷ eps) (v, vs) =
    rw (join_host_port-local_addr ep i v, outbounds-listen bind (i + 1) eps vs)

vsock-Lacks : (p : ℕ) (ips : List Bytes) → Lacks (vsock_any p) (map tcp ips)
vsock-Lacks p [] = tt
vsock-Lacks p (a ∷ ips) = (λ h. cc, vsock-Lacks p ips)

-- What `ValidateConfig` leaves behind meets the schema.
validated-IsConfig :
    (cfg cfg' : Config) (mode : ValidationMode)
    → validate_config (some cfg) mode ≡ (some cfg', ok tt)
    → IsConfig mode cfg'
unfolding validate_config
validated-IsConfig cfg cfg' mode h =
    let left : some (normalize_config cfg) ≡ some cfg' = ap (λ r. r.0) h in
    let same : normalize_config cfg ≡ cfg' = cc left in
    let accepted : (validate_config (some cfg) mode).1 ≡ ok tt = ap (λ r. r.1) h in
    rw same at ((validate_config_iff cfg mode).0 accepted)

endpoint_list-given :
    (cfg : Config) (eps : List Endpoint) → cfg.endpoints ≡ some eps → endpoint_list cfg ≡ eps
endpoint_list-given cfg eps e = rw e

host_bridges-Distinct :
    (bind : Bytes) (cid : ℕ) (cfg : Config)
    → IsConfig host cfg
    → Distinct (map (listen_address bind) (host_bridges cid cfg))
unfolding host_bridges
host_bridges-Distinct bind cid cfg c =
    let ports = map (λ ep. ep.vsock_port) c.list in
    rw (endpoint_list-given cfg c.list c.given.1, host_outbounds-listen bind cid c.list)
      (
        tcp-Lacks _ ports,
        Distinct-map vsock_any (λ n. Unit {0}) (λ m n _ _ e. cc) ports (All-true ports)
            c.vsock_ports,
      )

any_bytes : (ips : List Bytes) → All (λ a. Unit {0}) ips
any_bytes [] = tt
any_bytes (a ∷ ips) = (tt, any_bytes ips)

enclave_bridges-Distinct :
    (bind : Bytes) (cfg : Config)
    → IsConfig enclave cfg
    → Distinct (map (listen_address bind) (enclave_bridges cfg))
unfolding enclave_bridges
enclave_bridges-Distinct bind cfg c =
    let addrs = local_addrs 0 c.list in
    rw (endpoint_list-given cfg c.list c.given.1, outbounds-listen bind 0 c.list c.each)
      (
        vsock-Lacks cfg.http_vsock_port addrs,
        Distinct-map tcp (λ a. Unit {0}) (λ a b _ _ e. cc) addrs (any_bytes addrs)
            ((addrs_iff 0 c.list c.each).1 c.bind_addrs),
      )

-- No two bridges of the host, and no two of the enclave, listen on the same address, for every
-- configuration that the mode's validation accepts.
pub bridges-Distinct :
    (bind : Bytes) (cid : ℕ) (cfg h e : Config)
    → validate_config (some cfg) host ≡ (some h, ok tt)
    → validate_config (some cfg) enclave ≡ (some e, ok tt)
    → Distinct (map (listen_address bind) (host_bridges cid h))
      × Distinct (map (listen_address bind) (enclave_bridges e))
bridges-Distinct bind cid cfg h e hh he = (
  host_bridges-Distinct bind cid h (validated-IsConfig cfg h host hh),
  enclave_bridges-Distinct bind e (validated-IsConfig cfg e enclave he),
)

-- Where both modes accept a configuration, the host's first bridge dials the enclave's CID and the
-- port of the enclave's first listener, which serves connections from CID 3, the host's. Endpoint by
-- endpoint, in order, the enclave's outbound bridge dials CID 3 and the port on which the host
-- listens for it; that listener serves connections from the enclave's CID, and its bridge dials the
-- endpoint's host and tcpPort.
pub bridges-Forwards :
    (bind : Bytes) (cid : ℕ) (cfg h e : Config)
    → validate_config (some cfg) host ≡ (some h, ok tt)
    → validate_config (some cfg) enclave ≡ (some e, ok tt)
    → (dialer listener : Bridge) × (hs es : List Bridge) × (host_bridges cid h ≡ dialer ∷ hs)
      × (enclave_bridges e ≡ listener ∷ es)
      × Meets dialer listener bind 3 cid
      × Forwards bind cid (endpoint_list e) hs es
unfolding host_bridges enclave_bridges validate_config
bridges-Forwards bind cid cfg h e hh he =
    let a : some (normalize_config cfg) ≡ some h = ap (λ r. r.0) hh in
    let b : some (normalize_config cfg) ≡ some e = ap (λ r. r.0) he in
    let same : h ≡ e = cc (a, b) in
    (
      host_inbound h.http_port cid h.http_vsock_port,
      inbound e.http_vsock_port e.http_tcp_port parent_cid,
      host_outbounds cid (endpoint_list h),
      outbounds 0 (endpoint_list e),
      refl,
      refl,
      record {
        port = e.http_vsock_port;
        dials = ap (λ c. vsock cid c.http_vsock_port) same;
        listens = refl;
        serves = λ conn p h. (p, h);
      },
      rw same (outbounds-Forwards bind cid 0 (endpoint_list e)),
    )
