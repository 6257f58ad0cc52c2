-- ===== src/Bridge/Accept/Admission.antt =====
-- main.go: which connections the accept loops bridge.
use argonaut.Bridge.Accept.{
  PeerAddr, vsock_addr, other_addr, Conn, start, close, vsock_peer_cid_matches, LoopState, turn,
}
use argonaut.Bridge.Limiter.{try_acquire}
use argonaut.Bridge.Plan.{Bridge, host_inbound, host_outbound, inbound, outbound, dial_address}
use argonaut.Prelude.{
  ◌↔◌, ℕ, suc, ◌<◌, ◌≤◌, ◌≡◌, refl, ◌⊎◌, inl, inr, true, false, ◌∷◌, some, ltb, Bool-cases, arith,
  ap, if◌then◌else◌, ◌==◌, ==_iff,
}

-- The listeners on VSOCK serve one peer: the enclave, or the parent.
abbrev pub PeerAllowed : Bridge → Conn → Type 0
PeerAllowed (host_inbound tcp_port cid vsock_port) conn = Unit
PeerAllowed (host_outbound ep expected_cid) conn =
    (port : ℕ) × (conn.remote_addr ≡ vsock_addr expected_cid port)
PeerAllowed (inbound vsock_port tcp_port expected_cid) conn =
    (port : ℕ) × (conn.remote_addr ≡ vsock_addr expected_cid port)
PeerAllowed (outbound local_ip ep) conn = Unit

matches_iff :
    (conn : Conn) (cid : ℕ)
    → (vsock_peer_cid_matches conn cid ≡ true)
      ↔ ((port : ℕ) × (conn.remote_addr ≡ vsock_addr cid port))
unfolding vsock_peer_cid_matches
matches_iff conn cid = at_addr conn.remote_addr
  where
    at_addr :
        (a : PeerAddr)
        → (elim a [ vsock_addr c port ↦ c == cid | other_addr ↦ false ] ≡ true)
          ↔ ((port : ℕ) × (a ≡ vsock_addr cid port))
    at_addr (vsock_addr c port) = (
      λ h. (port, ap (λ x. vsock_addr x port) ((==_iff c cid).0 h)),
      λ h. let e : c ≡ cid = cc h.1 in (==_iff c cid).1 e,
    )
    at_addr other_addr = (λ h. cc, λ h. cc)

-- The state once the loop has started a goroutine for a connection.
abbrev pub opened : Bridge → Conn → LoopState → LoopState
opened b conn s = record s {
  limiter = record s.limiter { held = suc s.limiter.held };
  active = record { conn = conn; target = dial_address b } ∷ s.active;
}

abbrev pub refused : Conn → LoopState → LoopState
refused conn s = record s { closed = conn ∷ s.closed }

start-cases :
    (b : Bridge) (conn : Conn) (s : LoopState)
    → (s.limiter.held < s.limiter.capacity) × (start conn (dial_address b) s ≡ opened b conn s)
      ⊎ (s.limiter.capacity ≤ s.limiter.held) × (start conn (dial_address b) s ≡ refused conn s)
unfolding start try_acquire close
start-cases b conn s = elim (Bool-cases (ltb s.limiter.held s.limiter.capacity)) [
  | inl h ↦ inl (ground arith, rw h)
  | inr h ↦ inr (ground arith, rw h)
]

-- The next state is one of the two, by whether the peer is allowed and the limiter has room.
abbrev pub Decides : Type 0 → Bridge → Conn → LoopState → LoopState → Type 0
Decides Allowed b conn s next =
    Allowed × (s.limiter.held < s.limiter.capacity) × (next ≡ opened b conn s)
    ⊎ (Allowed → s.limiter.capacity ≤ s.limiter.held) × (next ≡ refused conn s)

start-Decides :
    (b : Bridge) (conn : Conn) (s : LoopState) {Allowed : Type 0}
    → Allowed
    → Decides Allowed b conn s (start conn (dial_address b) s)
start-Decides b conn s allowed = elim (start-cases b conn s) [
  | inl (room, e) ↦ inl (allowed, room, e)
  | inr (full, e) ↦ inr (λ _. full, e)
]

guarded-Decides :
    (b : Bridge) (conn : Conn) (s : LoopState) (cid : ℕ)
    → Decides
        ((port : ℕ) × (conn.remote_addr ≡ vsock_addr cid port))
        b
        conn
        s
        (if vsock_peer_cid_matches conn cid then start conn (dial_address b) s else close conn s)
unfolding close
guarded-Decides b conn s cid = elim (Bool-cases (vsock_peer_cid_matches conn cid)) [
  | inl h ↦ rw h (start-Decides b conn s ((matches_iff conn cid).0 h))
  | inr h ↦ rw h (inr (λ p. let h' = (matches_iff conn cid).1 p in cc, refl))
]

-- A turn of the loop starts a goroutine exactly if the peer is allowed and the limiter has room,
-- and closes the connection else.
pub turn-Decides :
    (b : Bridge) (conn : Conn) (s : LoopState)
    → Decides (PeerAllowed b conn) b conn s (turn b (some conn) s)
unfolding turn
turn-Decides (host_inbound tcp_port cid vsock_port) conn s =
    start-Decides (host_inbound tcp_port cid vsock_port) conn s tt
turn-Decides (host_outbound ep expected_cid) conn s =
    guarded-Decides (host_outbound ep expected_cid) conn s expected_cid
turn-Decides (inbound vsock_port tcp_port expected_cid) conn s =
    guarded-Decides (inbound vsock_port tcp_port expected_cid) conn s expected_cid
turn-Decides (outbound local_ip ep) conn s = start-Decides (outbound local_ip ep) conn s tt
