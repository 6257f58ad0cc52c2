-- ===== src/Bridge/Env/Settings.antt =====
-- main.go: the settings that the environment can give.
use argonaut.Bridge.Env.{
  pos, atoi, Environment, env_int, positive, from_magnitude, configured_max_concurrent_connections,
  default_max_concurrent_connections,
}
use argonaut.Text.Decimal.{
  parse_digits, parse_digits-value, itoa, value, IsDigit, value-itoa, itoa-IsDigit, itoa-ne-nil,
}
use argonaut.Prelude.{
  ℕ, zero, suc, ◌^◌, ◌≤◌, ◌<◌, ◌≡◌, ◌≢◌, ◌⊎◌, ◌∙◌, refl, ap, inl, inr, Bool, true, false, [], ◌∷◌,
  Option, none, some, Bytes, codes, equal, equal_iff, All, ltb, ◌==◌, arith, Bool-cases,
}

atoi-digits :
    (s : Bytes) → s ≢ [] → All IsDigit s → value 0 s < 2 ^ 63 → atoi s ≡ some (pos (value 0 s))
unfolding atoi
atoi-digits [] ne h b = absurd (ne refl)
atoi-digits (c ∷ s) ne ((lo, hi), h) b =
    let minus : (c == b'-') ≡ false = ground arith in
    let plus : (c == b'+') ≡ false = ground arith in
    let small : ltb (value 0 (c ∷ s)) (2 ^ 63) ≡ true = ground arith in
    rw (minus, plus, parse_digits-value (c ∷ s) ne ((lo, hi), h)) (rw small refl)

-- Every number that fits an int is read back from its decimal print.
pub atoi-itoa : (n : ℕ) → n < 2 ^ 63 → atoi (itoa n) ≡ some (pos n)
atoi-itoa n h =
    let v = value-itoa n in
    atoi-digits (itoa n) (itoa-ne-nil n) (itoa-IsDigit n) (rw v h) ∙ ap (λ k. some (pos k)) v

-- The fallback, or a positive int.
abbrev InRange : ℕ → ℕ → Type 0
InRange fallback n = (n ≡ fallback) ⊎ (1 ≤ n) × (n < 2 ^ 63)

positive-InRange :
    (negative : Bool) (o : Option ℕ) (fallback : ℕ)
    → InRange fallback (positive (from_magnitude negative o) fallback)
unfolding positive
positive-InRange negative none fallback = inl refl
positive-InRange true (some zero) fallback = inl refl
positive-InRange true (some (suc n)) fallback = elim (Bool-cases (ltb n (2 ^ 63))) [
  | inl e ↦ rw e (inl refl)
  | inr e ↦ rw e (inl refl)
]
positive-InRange false (some zero) fallback = inl refl
positive-InRange false (some (suc n)) fallback = elim (Bool-cases (ltb (suc n) (2 ^ 63))) [
  | inl e ↦ rw e (inr (omega arith, ground arith))
  | inr e ↦ rw e (inl refl)
]

atoi-InRange : (s : Bytes) (fallback : ℕ) → InRange fallback (positive (atoi s) fallback)
unfolding atoi
atoi-InRange [] fallback = positive-InRange false none fallback
atoi-InRange (c ∷ s) fallback = elim (Bool-cases (c == b'-')) [
  | inl e ↦ rw e (positive-InRange true (parse_digits s) fallback)
  | inr e ↦ elim (Bool-cases (c == b'+')) [
    | inl f ↦ rw (e, f) (positive-InRange false (parse_digits s) fallback)
    | inr f ↦ rw (e, f) (positive-InRange false (parse_digits (c ∷ s)) fallback)
  ]
]

env_int-InRange :
    (getenv : Environment) (name : Bytes) (fallback : ℕ)
    → InRange fallback (env_int getenv name fallback)
unfolding env_int
env_int-InRange getenv name fallback = elim (Bool-cases (equal (getenv name) [])) [
  | inl e ↦ rw e (inl refl)
  | inr e ↦ rw e (atoi-InRange (getenv name) fallback)
]

env_int-itoa :
    (getenv : Environment) (name : Bytes) (fallback n : ℕ)
    → 1 ≤ n
    → n < 2 ^ 63
    → getenv name ≡ itoa n
    → env_int getenv name fallback ≡ n
unfolding env_int positive
env_int-itoa getenv name fallback zero h k e = absurd (omega (arith, h))
env_int-itoa getenv name fallback (suc n) h k e = elim (Bool-cases (equal (itoa (suc n)) [])) [
  | inl nil ↦ absurd (itoa-ne-nil (suc n) ((equal_iff (itoa (suc n)) []).0 nil))
  | inr some_digit ↦ rw (e, some_digit, atoi-itoa (suc n) k) refl
]

-- Whatever the environment is, an integer setting is the fallback or in 1..2^63-1, so the limit of
-- the accept loops is never 0; and the decimal print of such a number sets it.
pub env_int_lem :
    (getenv : Environment) (name : Bytes) (fallback : ℕ)
    → ((env_int getenv name fallback ≡ fallback)
        ⊎ (1 ≤ env_int getenv name fallback) × (env_int getenv name fallback < 2 ^ 63))
      × (1 ≤ configured_max_concurrent_connections getenv)
      × ((n : ℕ) → 1 ≤ n → n < 2 ^ 63 → getenv name ≡ itoa n → env_int getenv name fallback ≡ n)
unfolding configured_max_concurrent_connections
env_int_lem getenv name fallback = (
  env_int-InRange getenv name fallback,
  elim (env_int-InRange getenv (codes "ARGONAUT_MAX_CONNECTIONS")
      default_max_concurrent_connections) [ inl e ↦ rw e (omega arith) | inr (h, _) ↦ h ],
  λ n. env_int-itoa getenv name fallback n,
)
