-- ===== src/Tests/LoopbackCases.antt =====
-- loopback_linux.go on an interface that is only its flags.
use argonaut.Loopback.Up.{settled, NetLaws, IsUp, ensure_loopback_up-IsUp}
use argonaut.Loopback.{NetOps, ensure_loopback_up}
use argonaut.Prelude.{
  ℕ, ◌+◌, ◌/◌, ◌%◌, ◌==◌, if◌then◌else◌, Bool-cases, inl, inr, arith, ◌≡◌, refl, sym, none, Result,
  ok, Bytes,
}

-- The kernel sets RUNNING.
abbrev running : ℕ → ℕ
running n = if (n / 64) % 2 == 1 then n else n + 64

abbrev pub lo : NetOps ℕ
lo = record {
  socket = λ s. (ok 3, s);
  new_ifreq = λ s. (none, s);
  get_flags = λ fd s. (ok s, s);
  set_flags = λ fd n s. (none, running n);
  close = λ fd s. s;
}

ok_injective : (m n : ℕ) → ◌≡◌ {A = Result Bytes ℕ} (ok m) (ok n) → m ≡ n
ok_injective m n h = cc

abbrev pub itself : ℕ → ℕ
itself s = s

running-settled : (n : ℕ) → settled (running n) ≡ settled n
running-settled n = elim (Bool-cases ((n / 64) % 2 == 1)) [
  | inl e ↦ rw e refl
  | inr e ↦
      let high : (n + 64) / 128 ≡ n / 128 = ground (arith, e) in
      let low : (n + 64) % 64 ≡ n % 64 = omega arith in rw (e, high, low) refl
]

pub lo-NetLaws : NetLaws lo itself
lo-NetLaws = record {
  socket_keeps = λ s. refl;
  ifreq_keeps = λ s. refl;
  get_keeps = λ fd s. refl;
  get_reads = λ fd n s h. sym (ok_injective s n h);
  set_done = λ fd n s raises up h. running-settled n;
  set_failed = λ fd n e s h. cc;
  close_keeps = λ fd s. refl;
}

-- 8 is LOOPBACK, to which UP and RUNNING are added.
raises : (ensure_loopback_up lo 8 ≡ (none, 73)) × (ensure_loopback_up lo 73 ≡ (none, 73))
unfolding ensure_loopback_up
raises = (refl, refl)

ensure_loopback_up-IsUp_example : IsUp lo itself lo-NetLaws 8 (ensure_loopback_up lo 8)
ensure_loopback_up-IsUp_example = ensure_loopback_up-IsUp lo itself lo-NetLaws 8
