-- ===== src/Bridge/Dial.antt =====
-- main.go: `bridgeToTCPHost`, `bridgeToVSOCK` and `bridgeToTCP`, less their logging.
pub mod Closing
use argonaut.Bridge.Accept.{Conn}
use argonaut.Bridge.Copy.{CopyResult, error_of}
use argonaut.Bridge.Env.{ℤ}
use argonaut.Bridge.Idle.{NetConn, with_idle_timeout}
use argonaut.Bridge.Plan.{join_host_port}
use argonaut.Prelude.{ℕ, Option, none, some, Result, ok, err, Bytes, codes}

-- The errors: a dial's is wrapped with what was dialed, that of the copy is passed on.
pub data BridgeError (E : Type 0) : Type 0 where
  tcp_host_dial : (target : Bytes) → E → BridgeError E
  vsock_dial : (cid port : ℕ) → E → BridgeError E
  tcp_dial : (tcp_port : ℕ) → E → BridgeError E
  copy_failed : E → BridgeError E

-- The calls: the dialers of the two networks, the methods of a connection, and (modelled in Copy)
-- `copyBidirectionalResult`, on the state of the network.
pub record Network (E S : Type 0) : Type 0 where
  pub dial_tcp : (target : Bytes) → S → Result E Conn × S
  pub dial_vsock : (cid port : ℕ) → S → Result E Conn × S
  pub methods : Conn → NetConn E S
  pub copy : NetConn E S → NetConn E S → S → CopyResult E × S
  pub close : Conn → S → S

-- `return result.Err()`
returned : {E : Type 0} → CopyResult E → Option (BridgeError E)
returned r = elim (error_of r) [ none ↦ none | some e ↦ some (copy_failed e) ]

-- `idle` is `configuredBridgeIdleTimeout`. The deferred calls are made last, the last one first.
module _ {E S : Type 0} (net : Network E S) (idle : ℤ) where
  bridge_to_tcp_host_dialed : Conn → Bytes → Result E Conn × S → Option (BridgeError E) × S
  unfolding returned
  bridge_to_tcp_host_dialed src target (err e, s) = (some (tcp_host_dial target e), net.close src s)
  bridge_to_tcp_host_dialed src target (ok tcp, s) =
      let src_conn = with_idle_timeout idle (net.methods src) in
      let tcp_conn = with_idle_timeout idle (net.methods tcp) in
      let (result, s') = net.copy src_conn tcp_conn s in
      (returned result, net.close src (net.close tcp s'))

  unfoldable pub bridge_to_tcp_host : Conn → Bytes → S → Option (BridgeError E) × S
  unfolding bridge_to_tcp_host_dialed
  bridge_to_tcp_host src target s = bridge_to_tcp_host_dialed src target (net.dial_tcp target s)

  bridge_to_vsock_dialed : Conn → ℕ → ℕ → Result E Conn × S → Option (BridgeError E) × S
  unfolding returned
  bridge_to_vsock_dialed src cid port (err e, s) = (some (vsock_dial cid port e), net.close src s)
  bridge_to_vsock_dialed src cid port (ok vc, s) =
      let src_conn = with_idle_timeout idle (net.methods src) in
      let vc_conn = with_idle_timeout idle (net.methods vc) in
      let (result, s') = net.copy src_conn vc_conn s in
      (returned result, net.close src (net.close vc s'))

  unfoldable pub bridge_to_vsock : Conn → ℕ → ℕ → S → Option (BridgeError E) × S
  unfolding bridge_to_vsock_dialed
  bridge_to_vsock src cid port s = bridge_to_vsock_dialed src cid port (net.dial_vsock cid port s)

  bridge_to_tcp_dialed : Conn → ℕ → Result E Conn × S → Option (BridgeError E) × S
  unfolding returned
  bridge_to_tcp_dialed src tcp_port (err e, s) = (some (tcp_dial tcp_port e), net.close src s)
  bridge_to_tcp_dialed src tcp_port (ok tcp, s) =
      let src_conn = with_idle_timeout idle (net.methods src) in
      let tcp_conn = with_idle_timeout idle (net.methods tcp) in
      let (result, s') = net.copy src_conn tcp_conn s in
      (returned result, net.close src (net.close tcp s'))

  unfoldable pub bridge_to_tcp : Conn → ℕ → S → Option (BridgeError E) × S
  unfolding bridge_to_tcp_dialed
  bridge_to_tcp src tcp_port s =
      let target = join_host_port (codes "127.0.0.1") tcp_port in
      bridge_to_tcp_dialed src tcp_port (net.dial_tcp target s)
