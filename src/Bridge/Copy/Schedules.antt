-- ===== src/Bridge/Copy/Schedules.antt =====
-- main.go: the bidirectional copy over the schedules of its goroutines.
use argonaut.Bridge.Copy.{
  CopyOutcome, CopyResult, collect, Phase, copying, copied, shut, sent, CopyState, copy_start,
  Streams, a_to_b_outcome, b_to_a_outcome, copy_step, copy_run, received, put_outcome,
}
use argonaut.Prelude.{
  ℕ, suc, ◌-◌, ◌≤◌, ◌≡◌, ◌⊎◌, refl, inl, inr, Bool, true, false, List, [], ◌∷◌, ◌++◌, some, arith,
}

-- The result by direction.
abbrev pub both : {E : Type 0} → Streams E → CopyResult E
both c = record {
  a_to_b_bytes = c.copy_a_to_b.0;
  b_to_a_bytes = c.copy_b_to_a.0;
  a_to_b_err = c.copy_a_to_b.1;
  b_to_a_err = c.copy_b_to_a.1;
}

abbrev is_sent : Phase → Bool
is_sent sent = true
is_sent _ = false

-- The outcomes in the channel, by which goroutines have sent.
abbrev Sent : {E : Type 0} → Streams E → Bool → Bool → List (CopyOutcome E) → Type 0
Sent c true true done =
    (done ≡ a_to_b_outcome c ∷ b_to_a_outcome c ∷ [])
    ⊎ (done ≡ b_to_a_outcome c ∷ a_to_b_outcome c ∷ [])
Sent c true false done = done ≡ a_to_b_outcome c ∷ []
Sent c false true done = done ≡ b_to_a_outcome c ∷ []
Sent c false false done = done ≡ []

-- The write side is closed as soon as the copy towards it has ended.
abbrev Shut : Phase → Bool → Bool → Type 0
Shut copying half_closes closed = Unit
Shut copied half_closes closed = Unit
Shut _ half_closes closed = closed ≡ half_closes

record IsCopy {E : Type 0} (c : Streams E) (s : CopyState E) : Type 0 where
  b_shut : Shut s.a_to_b c.b_half_closes s.b_write_closed
  a_shut : Shut s.b_to_a c.a_half_closes s.a_write_closed
  channel : Sent c (is_sent s.a_to_b) (is_sent s.b_to_a) s.done

send_a_to_b :
    {E : Type 0} (c : Streams E) (other : Bool) (done : List (CopyOutcome E))
    → Sent c false other done
    → Sent c true other (done ++ a_to_b_outcome c ∷ [])
send_a_to_b c true done h = rw h (inr refl)
send_a_to_b c false done h = rw h refl

send_b_to_a :
    {E : Type 0} (c : Streams E) (other : Bool) (done : List (CopyOutcome E))
    → Sent c other false done
    → Sent c other true (done ++ b_to_a_outcome c ∷ [])
send_b_to_a c true done h = rw h (inl refl)
send_b_to_a c false done h = rw h refl

abbrev state : {E : Type 0} → Phase → Phase → Bool → Bool → List (CopyOutcome E) → CopyState E
state p q x y done = record {
  a_to_b = p;
  b_to_a = q;
  a_write_closed = x;
  b_write_closed = y;
  done = done;
}

step-a_to_b :
    {E : Type 0} (c : Streams E) (p q : Phase) (x y : Bool) (done : List (CopyOutcome E))
    → IsCopy c (state p q x y done)
    → IsCopy c (copy_step c true (state p q x y done))
unfolding copy_step
step-a_to_b c copying q x y done v = record { b_shut = tt; a_shut = v.a_shut; channel = v.channel }
step-a_to_b c copied q x y done v = record { b_shut = refl; a_shut = v.a_shut; channel = v.channel }
step-a_to_b c shut q x y done v = record {
  b_shut = v.b_shut;
  a_shut = v.a_shut;
  channel = send_a_to_b c (is_sent q) done v.channel;
}
step-a_to_b c sent q x y done v = v

step-b_to_a :
    {E : Type 0} (c : Streams E) (p q : Phase) (x y : Bool) (done : List (CopyOutcome E))
    → IsCopy c (state p q x y done)
    → IsCopy c (copy_step c false (state p q x y done))
unfolding copy_step
step-b_to_a c p copying x y done v = record { b_shut = v.b_shut; a_shut = tt; channel = v.channel }
step-b_to_a c p copied x y done v = record { b_shut = v.b_shut; a_shut = refl; channel = v.channel }
step-b_to_a c p shut x y done v = record {
  b_shut = v.b_shut;
  a_shut = v.a_shut;
  channel = send_b_to_a c (is_sent p) done v.channel;
}
step-b_to_a c p sent x y done v = v

run-IsCopy :
    {E : Type 0} (c : Streams E) (ds : List Bool) (s : CopyState E)
    → IsCopy c s
    → IsCopy c (copy_run c ds s)
run-IsCopy c [] s v = v
run-IsCopy c (true ∷ ds) s v =
    run-IsCopy c ds (copy_step c true s)
      (step-a_to_b c s.a_to_b s.b_to_a s.a_write_closed s.b_write_closed s.done v)
run-IsCopy c (false ∷ ds) s v =
    run-IsCopy c ds (copy_step c false s)
      (step-b_to_a c s.a_to_b s.b_to_a s.a_write_closed s.b_write_closed s.done v)

-- How many statements a goroutine has left.
abbrev left : Phase → ℕ
left copying = 3
left copied = 2
left shut = 1
left sent = 0

abbrev pub turns : Bool → List Bool → ℕ
turns d [] = 0
turns true (true ∷ ds) = suc (turns true ds)
turns true (false ∷ ds) = turns true ds
turns false (true ∷ ds) = turns false ds
turns false (false ∷ ds) = suc (turns false ds)

step-left :
    {E : Type 0} (c : Streams E) (d : Bool) (p q : Phase) (x y : Bool) (done : List (CopyOutcome E))
    → (left (copy_step c d (state p q x y done)).a_to_b ≡ left p - turns true (d ∷ []))
      × (left (copy_step c d (state p q x y done)).b_to_a ≡ left q - turns false (d ∷ []))
unfolding copy_step
step-left c true copying q x y done = (omega arith, omega arith)
step-left c true copied q x y done = (omega arith, omega arith)
step-left c true shut q x y done = (omega arith, omega arith)
step-left c true sent q x y done = (omega arith, omega arith)
step-left c false p copying x y done = (omega arith, omega arith)
step-left c false p copied x y done = (omega arith, omega arith)
step-left c false p shut x y done = (omega arith, omega arith)
step-left c false p sent x y done = (omega arith, omega arith)

run-left :
    {E : Type 0} (c : Streams E) (ds : List Bool) (s : CopyState E)
    → (left (copy_run c ds s).a_to_b ≡ left s.a_to_b - turns true ds)
      × (left (copy_run c ds s).b_to_a ≡ left s.b_to_a - turns false ds)
run-left c [] s = (omega arith, omega arith)
run-left c (d ∷ ds) s =
    let (x, y) = step-left c d s.a_to_b s.b_to_a s.a_write_closed s.b_write_closed s.done in
    let (u, w) = run-left c ds (copy_step c d s) in by_turn d x y u w
  where
    by_turn :
        (d : Bool)
        → (left (copy_step c d s).a_to_b ≡ left s.a_to_b - turns true (d ∷ []))
        → (left (copy_step c d s).b_to_a ≡ left s.b_to_a - turns false (d ∷ []))
        → (left (copy_run c (d ∷ ds) s).a_to_b ≡ left (copy_step c d s).a_to_b - turns true ds)
        → (left (copy_run c (d ∷ ds) s).b_to_a ≡ left (copy_step c d s).b_to_a - turns false ds)
        → (left (copy_run c (d ∷ ds) s).a_to_b ≡ left s.a_to_b - turns true (d ∷ ds))
          × (left (copy_run c (d ∷ ds) s).b_to_a ≡ left s.b_to_a - turns false (d ∷ ds))
    by_turn true x y u w = (omega (arith, x, u), omega (arith, y, w))
    by_turn false x y u w = (omega (arith, x, u), omega (arith, y, w))

-- What two sends in either order leave in the channel.
received_cases :
    {E : Type 0} (c : Streams E) (p q : Bool) (s : CopyState E) {r : CopyResult E}
    → Sent c p q s.done
    → received s ≡ some r
    → (p ≡ true) × (q ≡ true) × (r ≡ both c)
unfolding received collect put_outcome
received_cases c true true s (inl e) h = (refl, refl, let h' = rw (e, received) at h in cc)
received_cases c true true s (inr e) h = (refl, refl, let h' = rw (e, received) at h in cc)
received_cases c true false s e h = absurd (let h' = rw (e, received) at h in cc)
received_cases c false true s e h = absurd (let h' = rw (e, received) at h in cc)
received_cases c false false s e h = absurd (let h' = rw (e, received) at h in cc)

received-Sent :
    {E : Type 0} (c : Streams E) (s : CopyState E)
    → Sent c true true s.done
    → received s ≡ some (both c)
unfolding received collect put_outcome
received-Sent c s (inl e) = rw e
received-Sent c s (inr e) = rw e

Shut-sent : (p : Phase) (x y : Bool) → is_sent p ≡ true → Shut p x y → y ≡ x
Shut-sent copying x y h v = cc
Shut-sent copied x y h v = cc
Shut-sent shut x y h v = cc
Shut-sent sent x y h v = v

left-zero : (p : Phase) → left p ≡ 0 → p ≡ sent
left-zero copying h = cc
left-zero copied h = cc
left-zero shut h = cc
left-zero sent h = refl

-- However the two goroutines interleave, a result is only returned once both write sides were
-- closed (on connections that can), and it then holds what `io.Copy` returned, by direction; once
-- each goroutine has had three turns it is returned.
pub copy_run-received :
    {E : Type 0} (c : Streams E) (ds : List Bool)
    → ((r : CopyResult E)
        → received (copy_run c ds copy_start) ≡ some r
        → (r ≡ both c)
          × ((copy_run c ds copy_start).a_write_closed ≡ c.a_half_closes)
          × ((copy_run c ds copy_start).b_write_closed ≡ c.b_half_closes))
      × (3 ≤ turns true ds
          → 3 ≤ turns false ds
          → received (copy_run c ds copy_start) ≡ some (both c))
copy_run-received {E} c ds = (result, returns)
  where
    s : CopyState E
    s = copy_run c ds copy_start

    v : IsCopy c s
    v = run-IsCopy c ds copy_start (record { b_shut = tt; a_shut = tt; channel = refl })

    result :
        (r : CopyResult E)
        → received s ≡ some r
        → (r ≡ both c) × (s.a_write_closed ≡ c.a_half_closes) × (s.b_write_closed ≡ c.b_half_closes)
    result r h =
        let (p, q, e) = received_cases c (is_sent s.a_to_b) (is_sent s.b_to_a) s v.channel h in
        (e, Shut-sent s.b_to_a _ _ q v.a_shut, Shut-sent s.a_to_b _ _ p v.b_shut)

    returns : 3 ≤ turns true ds → 3 ≤ turns false ds → received s ≡ some (both c)
    returns h k =
        let (x, y) = run-left c ds copy_start in
        let p : s.a_to_b ≡ sent = left-zero s.a_to_b (omega (arith, x, h)) in
        let q : s.b_to_a ≡ sent = left-zero s.b_to_a (omega (arith, y, k)) in
        received-Sent c s (rw (p, q) at v.channel)
