-- ===== src/Loopback/Up.antt =====
-- loopback_linux.go: the flags of the interface behind `ensureLoopbackUp`.
use argonaut.Loopback.{
  NetOps, LoopbackError, is_up, raised, set_result, raise, request, with_socket, ensure_loopback_up,
}
use argonaut.Prelude.{
  ℕ, ◌+◌, ◌%◌, ◌/◌, ◌≡◌, ◌∙◌, refl, ap, inl, inr, Option, none, some, Result, ok, err, Bytes, arith,
  Bool-cases,
}

-- The flags less RUNNING (0x40), which the kernel sets and clears by itself as an interface comes
-- up or goes down.
abbrev pub settled : ℕ → ℕ × ℕ
settled f = (f / 128, f % 64)

-- What the program relies on, for a view of the interface's flags. Of SIOCSIFFLAGS only that a
-- request to raise the interface, with the flags it has, changes no other flag than RUNNING.
pub record NetLaws {S : Type 0} (ops : NetOps S) (flags : S → ℕ) : Type 0 where
  pub socket_keeps : (s : S) → flags (ops.socket s).1 ≡ flags s
  pub ifreq_keeps : (s : S) → flags (ops.new_ifreq s).1 ≡ flags s
  pub get_keeps : (fd : ℕ) (s : S) → flags (ops.get_flags fd s).1 ≡ flags s
  pub get_reads : (fd n : ℕ) (s : S) → (ops.get_flags fd s).0 ≡ ok n → n ≡ flags s
  pub set_done :
      (fd n : ℕ) (s : S)
      → n ≡ flags s + 1
      → n % 2 ≡ 1
      → (ops.set_flags fd n s).0 ≡ none
      → settled (flags (ops.set_flags fd n s).1) ≡ settled n
  pub set_failed :
      (fd n : ℕ) (e : Bytes) (s : S)
      → (ops.set_flags fd n s).0 ≡ some e
      → flags (ops.set_flags fd n s).1 ≡ flags s
  pub close_keeps : (fd : ℕ) (s : S) → flags (ops.close fd s) ≡ flags s

module _ {S : Type 0} (ops : NetOps S) (flags : S → ℕ) (laws : NetLaws ops flags) where
  -- Without an error UP, the lowest bit, is set, and of the others only RUNNING can have changed;
  -- with one, no flag has.
  abbrev pub IsUp : ℕ → Option LoopbackError × S → Type 0
  IsUp before out =
      (out.0 ≡ none
        → (flags out.1 % 2 ≡ 1)
          × (flags out.1 / 128 ≡ before / 128)
          × ((flags out.1 % 64) / 2 ≡ (before % 64) / 2))
      × ((e : LoopbackError) → out.0 ≡ some e → flags out.1 ≡ before)

  set_result-IsUp :
      (n before : ℕ) (out : Option Bytes × S)
      → n % 2 ≡ 1
      → n / 2 ≡ before / 2
      → (out.0 ≡ none → settled (flags out.1) ≡ settled n)
      → ((e : Bytes) → out.0 ≡ some e → flags out.1 ≡ before)
      → IsUp before (set_result ops out)
  unfolding set_result
  set_result-IsUp n before (none, s) odd same done failed =
      let high : flags s / 128 ≡ n / 128 = ap (λ p. p.0) (done refl) in
      let low : flags s % 64 ≡ n % 64 = ap (λ p. p.1) (done refl) in
      (
        λ _. (omega (arith, low, odd), omega (arith, high, same), omega (arith, low, same)),
        λ e h. cc,
      )
  set_result-IsUp n before (some e, s) odd same done failed = (λ h. cc, λ _ _. failed e refl)

  raise-IsUp :
      (fd before : ℕ) (out : Result Bytes ℕ × S)
      → flags out.1 ≡ before
      → ((n : ℕ) → out.0 ≡ ok n → n ≡ before)
      → IsUp before (raise ops fd out)
  unfolding raise
  raise-IsUp fd before (err e, s) kept reads = (λ h. cc, λ _ _. kept)
  raise-IsUp fd before (ok n, s) kept reads = elim (Bool-cases (is_up n)) [
    | inl up ↦ rw up (
      λ _. (ground (arith, kept, reads n refl, up), omega (arith, kept), omega (arith, kept)),
      λ e h. cc,
    )
    | inr down ↦
        let same = reads n refl in
        rw down (
          set_result-IsUp (raised n) before (ops.set_flags fd (raised n) s) (ground (arith, down))
            (ground (arith, down, same))
            (laws.set_done fd (raised n) s (omega (arith, kept, same)) (ground (arith, down)))
            (λ e h. laws.set_failed fd (raised n) e s h ∙ kept))
  ]

  request-IsUp :
      (fd before : ℕ) (out : Option Bytes × S)
      → flags out.1 ≡ before
      → IsUp before (request ops fd out)
  unfolding request
  request-IsUp fd before (some e, s) kept = (λ h. cc, λ _ _. kept)
  request-IsUp fd before (none, s) kept =
      raise-IsUp fd before (ops.get_flags fd s) (laws.get_keeps fd s ∙ kept)
        (λ n h. laws.get_reads fd n s h ∙ kept)

  closed-IsUp :
      (fd before : ℕ) (out : Option LoopbackError × S)
      → IsUp before out
      → IsUp before (out.0, ops.close fd out.1)
  closed-IsUp fd before out (done, failed) =
      let same = laws.close_keeps fd out.1 in rw same (done, failed)

  with_socket-IsUp :
      (before : ℕ) (out : Result Bytes ℕ × S)
      → flags out.1 ≡ before
      → IsUp before (with_socket ops out)
  unfolding with_socket
  with_socket-IsUp before (err e, s) kept = (λ h. cc, λ _ _. kept)
  with_socket-IsUp before (ok fd, s) kept =
      closed-IsUp fd before (request ops fd (ops.new_ifreq s))
        (request-IsUp fd before (ops.new_ifreq s) (laws.ifreq_keeps s ∙ kept))

  -- For system calls that do what the program relies on, ensureLoopbackUp leaves `lo` up where it
  -- returns no error, with its other flags as they were but for RUNNING, which the kernel sets by
  -- itself, and leaves all flags where it returns one.
  pub ensure_loopback_up-IsUp : (s : S) → IsUp (flags s) (ensure_loopback_up ops s)
  unfolding ensure_loopback_up
  ensure_loopback_up-IsUp s = with_socket-IsUp (flags s) (ops.socket s) (laws.socket_keeps s)
