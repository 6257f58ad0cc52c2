-- ===== src/Bridge/Accept/Occupancy.antt =====
-- main.go: the accept loops, in every state that they reach.
use argonaut.Bridge.Accept.Admission.{PeerAllowed, opened, refused, turn-Decides}
use argonaut.Bridge.Accept.{
  Conn, Bridged, LoopState, initial, turn, finish, remove_at, Reach, started, failed, accepted,
  ended,
}
use argonaut.Bridge.Accept.Removal.{
  Inserts, here, there, remove_at-Inserts, remove_at-lt, Inserts-length, Inserts-All,
}
use argonaut.Bridge.Limiter.{ConnectionLimiter, release}
use argonaut.Bridge.Plan.{Bridge, host_inbound, host_outbound, inbound, outbound, dial_address}
use argonaut.Prelude.{
  ℕ, suc, ◌+◌, ◌<◌, ◌≤◌, ◌≡◌, refl, inl, inr, Bool, List, [], ◌∷◌, none, some, Option-cases, length,
  All, arith, if◌then◌else◌,
}

-- How many elements pass a test.
abbrev pub count {ℓ} : {A : Type ℓ} → (A → Bool) → List A → ℕ
count p [] = 0
count p (x ∷ xs) = (if p x then 1 else 0) + count p xs

abbrev pub conns : List Bridged → List Conn
conns [] = []
conns (g ∷ gs) = g.conn ∷ conns gs

-- A goroutine serves an allowed peer, and dials the address of its bridge.
abbrev pub IsServed : Bridge → Bridged → Type 0
IsServed b g = PeerAllowed b g.conn × (g.target ≡ dial_address b)

-- `cs` are the connections that the loop has accepted.
pub record IsSound (b : Bridge) (max : ℕ) (cs : List Conn) (s : LoopState) : Type 0 where
  pub capacity : s.limiter.capacity ≡ max
  pub held : s.limiter.held ≡ length s.active
  pub bound : length s.active ≤ max
  pub served : All (IsServed b) s.active
  pub kept : (p : Conn → Bool) → count p cs ≡ count p (conns s.active) + count p s.closed

initial-IsSound : (b : Bridge) (max : ℕ) → IsSound b max [] (initial max)
initial-IsSound b max = record {
  capacity = refl;
  held = refl;
  bound = omega arith;
  served = tt;
  kept = λ p. refl;
}

opened-IsSound :
    (b : Bridge) (max : ℕ) (cs : List Conn) (s : LoopState) (conn : Conn)
    → IsSound b max cs s
    → PeerAllowed b conn
    → s.limiter.held < s.limiter.capacity
    → IsSound b max (conn ∷ cs) (opened b conn s)
opened-IsSound b max cs s conn v allowed room = record {
  capacity = v.capacity;
  held = omega (arith, v.held);
  bound = omega (arith, v.held, v.capacity);
  served = ((allowed, refl), v.served);
  kept = λ p. omega (arith, v.kept p);
}

refused-IsSound :
    (b : Bridge) (max : ℕ) (cs : List Conn) (s : LoopState) (conn : Conn)
    → IsSound b max cs s
    → IsSound b max (conn ∷ cs) (refused conn s)
refused-IsSound b max cs s conn v = record {
  capacity = v.capacity;
  held = v.held;
  bound = v.bound;
  served = v.served;
  kept = λ p. omega (arith, v.kept p);
}

turn-IsSound :
    (b : Bridge) (max : ℕ) (cs : List Conn) (s : LoopState) (conn : Conn)
    → IsSound b max cs s
    → IsSound b max (conn ∷ cs) (turn b (some conn) s)
turn-IsSound b max cs s conn v = elim (turn-Decides b conn s) [
  | inl (allowed, room, e) ↦ rw e (opened-IsSound b max cs s conn v allowed room)
  | inr (_, e) ↦ rw e (refused-IsSound b max cs s conn v)
]

turn-failed : (b : Bridge) (s : LoopState) → turn b none s ≡ s
unfolding turn
turn-failed (host_inbound tcp_port cid vsock_port) s = refl
turn-failed (host_outbound ep expected_cid) s = refl
turn-failed (inbound vsock_port tcp_port expected_cid) s = refl
turn-failed (outbound local_ip ep) s = refl

Inserts-count :
    (p : Conn → Bool) {g : Bridged} {gs hs : List Bridged}
    → Inserts g gs hs
    → count p (conns gs) ≡ (if p g.conn then 1 else 0) + count p (conns hs)
Inserts-count p here = refl
Inserts-count p (there h) = omega (arith, Inserts-count p h)

-- The state after a goroutine has ended.
abbrev without : Bridged → List Bridged → LoopState → ConnectionLimiter → LoopState
without g rest s l = record { limiter = l; active = rest; closed = g.conn ∷ s.closed }

release-suc :
    (l : ConnectionLimiter) (n : ℕ) → l.held ≡ suc n → release l ≡ some (record l { held = n })
unfolding release
release-suc l n e = rw e

finish-without :
    (i : ℕ) (s : LoopState) (g : Bridged) (rest : List Bridged)
    → remove_at i s.active ≡ some (g, rest)
    → s.limiter.held ≡ length s.active
    → finish i s ≡ some (without g rest s (record s.limiter { held = length rest }))
unfolding finish
finish-without i s g rest e h = rw (
  e,
  finish,
  release-suc s.limiter (length rest)
      (cc (h, Inserts-length (remove_at-Inserts i s.active g rest e))),
)

without-IsSound :
    (b : Bridge) (max : ℕ) (cs : List Conn) (s : LoopState) (g : Bridged) (rest : List Bridged)
    → IsSound b max cs s
    → Inserts g s.active rest
    → IsSound b max cs (without g rest s (record s.limiter { held = length rest }))
without-IsSound b max cs s g rest v h = record {
  capacity = v.capacity;
  held = refl;
  bound = omega (arith, v.bound, Inserts-length h);
  served = Inserts-All (IsServed b) h v.served;
  kept = λ p. omega (arith, v.kept p, Inserts-count p h);
}

-- What `finish` returns in a sound state.
finish-IsSound :
    (b : Bridge) (max : ℕ) (cs : List Conn) (s : LoopState) (i : ℕ) {s' : LoopState}
    → IsSound b max cs s
    → finish i s ≡ some s'
    → IsSound b max cs s'
unfolding finish
finish-IsSound b max cs s i {s'} v h = elim (Option-cases (remove_at i s.active)) [
  | inl e ↦ let h' = rw (e, finish) at h in cc
  | inr ((g, rest), e) ↦
      let next = without g rest s (record s.limiter { held = length rest }) in
      let same : next ≡ s' = cc (h, finish-without i s g rest e v.held) in
      rw (← same) (without-IsSound b max cs s g rest v (remove_at-Inserts i s.active g rest e))
]

pub Reach-IsSound :
    (b : Bridge) (max : ℕ) (cs : List Conn) (s : LoopState) → Reach b max cs s → IsSound b max cs s
Reach-IsSound b max _ _ started = initial-IsSound b max
Reach-IsSound b max _ _ (failed r) = rw turn-failed (Reach-IsSound b max _ _ r)
Reach-IsSound b max _ _ (accepted conn r) = turn-IsSound b max _ _ conn (Reach-IsSound b max _ _ r)
Reach-IsSound b max _ _ (ended i r e) = finish-IsSound b max _ _ i (Reach-IsSound b max _ _ r) e

-- Whatever the order of accepted connections, accept errors and ended goroutines, each of the four
-- accept loops has at most `max` goroutines, each for an allowed peer and for the address that the
-- bridge dials, and every accepted connection is, as often as it was accepted, either being bridged
-- or closed.
pub Reach-keeps :
    (b : Bridge) (max : ℕ) (cs : List Conn) (s : LoopState)
    → Reach b max cs s
    → (length s.active ≤ max)
      × All (IsServed b) s.active
      × ((p : Conn → Bool) → count p cs ≡ count p (conns s.active) + count p s.closed)
Reach-keeps b max cs s r = let v = Reach-IsSound b max cs s r in (v.bound, v.served, v.kept)

-- In every reachable state a goroutine that ends can release its slot without blocking, which
-- leaves one goroutine less; an accepted connection is bridged where its peer is allowed and fewer
-- than `max` goroutines run, and closed in every other case.
pub Reach-progress :
    (b : Bridge) (max : ℕ) (cs : List Conn) (s : LoopState)
    → Reach b max cs s
    → ((i : ℕ)
        → i < length s.active
        → (s' : LoopState) × (finish i s ≡ some s') × (length s.active ≡ suc (length s'.active)))
      × ((conn : Conn)
          → PeerAllowed b conn
          → length s.active < max
          → turn b (some conn) s ≡ opened b conn s)
      × ((conn : Conn)
          → (PeerAllowed b conn → max ≤ length s.active)
          → turn b (some conn) s ≡ refused conn s)
Reach-progress b max cs s r = (ends, opens, refuses)
  where
    v : IsSound b max cs s
    v = Reach-IsSound b max cs s r

    ends :
        (i : ℕ)
        → i < length s.active
        → (s' : LoopState) × (finish i s ≡ some s') × (length s.active ≡ suc (length s'.active))
    ends i h =
        let (x, e) = remove_at-lt i s.active h in
        (
          without x.0 x.1 s (record s.limiter { held = length x.1 }),
          finish-without i s x.0 x.1 e v.held,
          Inserts-length (remove_at-Inserts i s.active x.0 x.1 e),
        )

    opens :
        (conn : Conn)
        → PeerAllowed b conn
        → length s.active < max
        → turn b (some conn) s ≡ opened b conn s
    opens conn allowed room = elim (turn-Decides b conn s) [
      | inl (_, _, e) ↦ e
      | inr (full, _) ↦ absurd (omega (arith, full allowed, v.held, v.capacity, room))
    ]

    refuses :
        (conn : Conn)
        → (PeerAllowed b conn → max ≤ length s.active)
        → turn b (some conn) s ≡ refused conn s
    refuses conn full = elim (turn-Decides b conn s) [
      | inl (allowed, room, _) ↦ absurd (omega (arith, full allowed, v.held, v.capacity, room))
      | inr (_, e) ↦ e
    ]
