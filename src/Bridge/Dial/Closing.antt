-- ===== src/Bridge/Dial/Closing.antt =====
-- main.go: the connections that the bridge functions leave open, and what they return.
use argonaut.Bridge.Accept.{Conn}
use argonaut.Bridge.Copy.{CopyResult, error_of}
use argonaut.Bridge.Dial.{
  BridgeError, Network, returned, bridge_to_tcp_host_dialed, bridge_to_tcp_host,
  bridge_to_vsock_dialed, bridge_to_vsock, bridge_to_tcp_dialed, bridge_to_tcp,
}
use argonaut.Bridge.Env.{ℤ}
use argonaut.Bridge.Idle.{with_idle_timeout}
use argonaut.Bridge.Plan.{join_host_port}
use argonaut.Prelude.{
  ℕ, ◌≡◌, ◌↔◌, ◌∙◌, refl, List, ◌∷◌, Option, none, some, Result, ok, err, Bytes, codes, arith,
}

-- What the program relies on, for a view of the connections that a goroutine has open, the last one
-- first: a dial that succeeds opens one, a close ends the last one, and the copy, which closes write
-- sides only, leaves all open.
pub record NetworkLaws {E S : Type 0} (net : Network E S) (opens : S → List Conn) : Type 0 where
  pub tcp_opens :
      (target : Bytes) (s : S) (c : Conn)
      → (net.dial_tcp target s).0 ≡ ok c
      → opens (net.dial_tcp target s).1 ≡ c ∷ opens s
  pub tcp_fails :
      (target : Bytes) (s : S) (e : E)
      → (net.dial_tcp target s).0 ≡ err e
      → opens (net.dial_tcp target s).1 ≡ opens s
  pub vsock_opens :
      (cid port : ℕ) (s : S) (c : Conn)
      → (net.dial_vsock cid port s).0 ≡ ok c
      → opens (net.dial_vsock cid port s).1 ≡ c ∷ opens s
  pub vsock_fails :
      (cid port : ℕ) (s : S) (e : E)
      → (net.dial_vsock cid port s).0 ≡ err e
      → opens (net.dial_vsock cid port s).1 ≡ opens s
  pub copy_keeps :
      (idle : ℤ) (a b : Conn) (s : S)
      → opens
          (net.copy
            (with_idle_timeout idle (net.methods a))
            (with_idle_timeout idle (net.methods b))
            s).1
        ≡ opens s
  pub close_ends :
      (c : Conn) (s : S) (rest : List Conn) → opens s ≡ c ∷ rest → opens (net.close c s) ≡ rest

returned-none :
    {E : Type 0} (r : CopyResult E)
    → (returned r ≡ none) ↔ ((r.a_to_b_err ≡ none) × (r.b_to_a_err ≡ none))
unfolding returned error_of
returned-none r = (λ h. ground arith, λ h. ground arith)

module _ {E S : Type 0} (net : Network E S) (idle : ℤ) (opens : S → List Conn)
    (laws : NetworkLaws net opens) where
  abbrev pub copied : Conn → Conn → S → CopyResult E × S
  copied src dst =
      net.copy (with_idle_timeout idle (net.methods src)) (with_idle_timeout idle (net.methods dst))

  -- Only `rest` is open in the end; and there is no error exactly if the dial gave a connection and
  -- the copy, each side behind the idle timeout, had none in either direction.
  abbrev pub Bridges : List Conn → Conn → Result E Conn × S → Option (BridgeError E) × S → Type 0
  Bridges rest src dialed out =
      (opens out.1 ≡ rest)
      × ((out.0 ≡ none) ↔ (
          (dst : Conn) × (dialed.0 ≡ ok dst)
          × ((copied src dst dialed.1).0.a_to_b_err ≡ none)
          × ((copied src dst dialed.1).0.b_to_a_err ≡ none)))

  -- What a dial does to the open connections.
  Dialed : List Conn → Result E Conn × S → Type 0
  Dialed before r =
      ((c : Conn) → r.0 ≡ ok c → opens r.1 ≡ c ∷ before)
      × ((e : E) → r.0 ≡ err e → opens r.1 ≡ before)

  failed-Bridges :
      (rest : List Conn) (src : Conn) (e : E) (why : BridgeError E) (s : S)
      → opens s ≡ src ∷ rest
      → Bridges rest src (err e, s) (some why, net.close src s)
  failed-Bridges rest src e why s h =
      (laws.close_ends src s rest h, (λ f. absurd cc, λ (dst, f, _, _). absurd cc))

  copied-Bridges :
      (rest : List Conn) (src dst : Conn) (s : S)
      → opens s ≡ dst ∷ src ∷ rest
      → Bridges rest src
          (ok dst, s)
          (returned (copied src dst s).0, net.close src (net.close dst (copied src dst s).1))
  copied-Bridges rest src dst s h =
      let s' = (copied src dst s).1 in
      let both : opens s' ≡ dst ∷ src ∷ rest = laws.copy_keeps idle src dst s ∙ h in
      let one = laws.close_ends dst s' (src ∷ rest) both in
      let (there, back) = returned-none (copied src dst s).0 in
      (
        laws.close_ends src (net.close dst s') rest one,
        (
          λ f. let (a, b) = there f in (dst, refl, a, b),
          λ (d, same, a, b). let e : d ≡ dst = cc in back (rw e at a, rw e at b),
        ),
      )

  tcp_host_end-Bridges :
      (rest : List Conn) (src : Conn) (target : Bytes) (r : Result E Conn × S)
      → Dialed (src ∷ rest) r
      → Bridges rest src r (bridge_to_tcp_host_dialed net idle src target r)
  unfolding bridge_to_tcp_host_dialed Dialed
  tcp_host_end-Bridges rest src target (err e, s) d = failed-Bridges rest src e _ s (d.1 e refl)
  tcp_host_end-Bridges rest src target (ok c, s) d = copied-Bridges rest src c s (d.0 c refl)

  vsock_end-Bridges :
      (rest : List Conn) (src : Conn) (cid port : ℕ) (r : Result E Conn × S)
      → Dialed (src ∷ rest) r
      → Bridges rest src r (bridge_to_vsock_dialed net idle src cid port r)
  unfolding bridge_to_vsock_dialed Dialed
  vsock_end-Bridges rest src cid port (err e, s) d = failed-Bridges rest src e _ s (d.1 e refl)
  vsock_end-Bridges rest src cid port (ok c, s) d = copied-Bridges rest src c s (d.0 c refl)

  tcp_end-Bridges :
      (rest : List Conn) (src : Conn) (port : ℕ) (r : Result E Conn × S)
      → Dialed (src ∷ rest) r
      → Bridges rest src r (bridge_to_tcp_dialed net idle src port r)
  unfolding bridge_to_tcp_dialed Dialed
  tcp_end-Bridges rest src port (err e, s) d = failed-Bridges rest src e _ s (d.1 e refl)
  tcp_end-Bridges rest src port (ok c, s) d = copied-Bridges rest src c s (d.0 c refl)

  dial_tcp-Dialed :
      (target : Bytes) (s : S) {before : List Conn}
      → opens s ≡ before
      → Dialed before (net.dial_tcp target s)
  unfolding Dialed
  dial_tcp-Dialed target s h =
      (λ c e. rw (← h) (laws.tcp_opens target s c e), λ e f. laws.tcp_fails target s e f ∙ h)

  dial_vsock-Dialed :
      (cid port : ℕ) (s : S) {before : List Conn}
      → opens s ≡ before
      → Dialed before (net.dial_vsock cid port s)
  unfolding Dialed
  dial_vsock-Dialed cid port s h = (
    λ c e. rw (← h) (laws.vsock_opens cid port s c e),
    λ e f. laws.vsock_fails cid port s e f ∙ h,
  )

  -- For dialers, a copy and a close that do what the program relies on, each of the three bridge
  -- functions ends with the connection that it is given and the one that it dialed closed, and all
  -- others open, on every path. It returns no error exactly if the dial of its target succeeds and
  -- the copy, with both sides behind the idle timeout, has none in either direction; inside the
  -- enclave the TCP target is 127.0.0.1 and the port.
  pub bridge_functions-Bridges :
      (rest : List Conn) (src : Conn) (host : Bytes) (cid port : ℕ) (s : S)
      → opens s ≡ src ∷ rest
      → Bridges rest src (net.dial_tcp host s) (bridge_to_tcp_host net idle src host s)
        × Bridges rest src (net.dial_vsock cid port s) (bridge_to_vsock net idle src cid port s)
        × Bridges rest src
            (net.dial_tcp (join_host_port (codes "127.0.0.1") port) s)
            (bridge_to_tcp net idle src port s)
  unfolding bridge_to_tcp_host bridge_to_vsock bridge_to_tcp
  bridge_functions-Bridges rest src host cid port s h =
      let inside = join_host_port (codes "127.0.0.1") port in
      (
        tcp_host_end-Bridges rest src host (net.dial_tcp host s) (dial_tcp-Dialed host s h),
        vsock_end-Bridges rest src cid port (net.dial_vsock cid port s)
            (dial_vsock-Dialed cid port s h),
        tcp_end-Bridges rest src port (net.dial_tcp inside s) (dial_tcp-Dialed inside s h),
      )
