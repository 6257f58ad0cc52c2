-- ===== src/Text/Decimal.antt =====
-- `strconv.Itoa` and `fmt.Sprint` of a number that is not negative.
use argonaut.Prelude.{
  ℕ, zero, suc, ◌+◌, ◌-◌, ◌*◌, ◌/◌, ◌%◌, ◌≤◌, ◌<◌, ◌≡◌, ◌≢◌, refl, sym, ap, ◌∙◌, false, [], ◌∷◌,
  ◌++◌, arith, ltb, within, Option, none, some, if◌then◌else◌, Bool-cases, Bytes, All, inl, inr,
}

-- The digits of `n` in front of `out`; there are at most as many as the fuel.
digits : ℕ → ℕ → Bytes → Bytes
digits zero n out = out
digits (suc fuel) n out =
    let more = digits fuel (n / 10) ((b'0' + n % 10) ∷ out) in
    if ltb n 10 then (b'0' + n) ∷ out else more

unfoldable pub itoa : ℕ → Bytes
unfolding digits
itoa n = digits (suc n) n []

-- The number that digits spell behind `n`.
abbrev pub value : ℕ → Bytes → ℕ
value n [] = n
value n (c ∷ s) = value (n * 10 + (c - b'0')) s

abbrev pub IsDigit : ℕ → Type 0
IsDigit c = (b'0' ≤ c) × (c ≤ b'9')

value-digits : (fuel n : ℕ) (out : Bytes) → n < fuel → value 0 (digits fuel n out) ≡ value n out
unfolding digits
value-digits zero n out h = absurd (omega arith)
value-digits (suc fuel) n out h = elim (Bool-cases (ltb n 10)) [
  | inl e ↦ rw e (ap (λ k. value k out) (ground arith))
  | inr e ↦ rw e (
      value-digits fuel (n / 10) ((b'0' + n % 10) ∷ out) (ground arith)
      ∙ ap (λ k. value k out) (omega arith))
]

-- Every number is read back from its decimal print.
pub value-itoa : (n : ℕ) → value 0 (itoa n) ≡ n
unfolding itoa
value-itoa n = value-digits (suc n) n [] (omega arith)

pub itoa_injective : (m n : ℕ) → itoa m ≡ itoa n → m ≡ n
itoa_injective m n h = sym (value-itoa m) ∙ ap (value 0) h ∙ value-itoa n

digits-IsDigit : (fuel n : ℕ) (out : Bytes) → All IsDigit out → All IsDigit (digits fuel n out)
unfolding digits
digits-IsDigit zero n out h = h
digits-IsDigit (suc fuel) n out h = elim (Bool-cases (ltb n 10)) [
  | inl e ↦ rw e ((ground arith, ground arith), h)
  | inr e ↦ rw e (digits-IsDigit fuel (n / 10) _ ((omega arith, omega arith), h))
]

pub itoa-IsDigit : (n : ℕ) → All IsDigit (itoa n)
unfolding itoa
itoa-IsDigit n = digits-IsDigit (suc n) n [] tt

digits-fuel : (f g n : ℕ) (out : Bytes) → n < f → n < g → digits f n out ≡ digits g n out
unfolding digits
digits-fuel zero g n out h k = absurd (omega arith)
digits-fuel (suc f) zero n out h k = absurd (omega arith)
digits-fuel (suc f) (suc g) n out h k = elim (Bool-cases (ltb n 10)) [
  | inl e ↦ rw e
  | inr e ↦ rw e (digits-fuel f g (n / 10) _ (ground arith) (ground arith))
]

digits-append : (f n : ℕ) (out more : Bytes) → digits f n (out ++ more) ≡ digits f n out ++ more
unfolding digits
digits-append zero n out more = refl
digits-append (suc f) n out more =
    ground (arith, digits-append f (n / 10) ((b'0' + n % 10) ∷ out) more)

pub itoa_digit : (d : ℕ) → d < 10 → itoa d ≡ (b'0' + d) ∷ []
unfolding itoa
itoa_digit d h = ground arith

digits_ten :
    (f n d : ℕ) (out : Bytes)
    → 0 < n
    → d < 10
    → digits (suc f) (n * 10 + d) out ≡ digits f n ((b'0' + d) ∷ out)
unfolding digits
digits_ten f n d out hn hd =
    let q : (n * 10 + d) / 10 ≡ n = omega arith in
    let r : (n * 10 + d) % 10 ≡ d = omega arith in
    let large : ltb (n * 10 + d) 10 ≡ false = ground arith in rw (large, q, r)

-- One more digit behind the print of a positive number.
pub itoa-snoc : (n d : ℕ) → 0 < n → d < 10 → itoa (n * 10 + d) ≡ itoa n ++ (b'0' + d) ∷ []
unfolding itoa
itoa-snoc n d hn hd =
    digits_ten (n * 10 + d) n d [] hn hd
    ∙ digits-fuel (n * 10 + d) (suc n) n _ (omega arith) (omega arith)
    ∙ digits-append (suc n) n [] ((b'0' + d) ∷ [])

pub itoa-ne-nil : (n : ℕ) → itoa n ≢ []
unfolding itoa
itoa-ne-nil n h = let e : n ≡ 0 = sym (value-itoa n) ∙ ap (value 0) h in let h' = rw e at h in cc

-- `strconv.ParseUint` in base 10, less the range: the number that one or more decimal digits spell.
read_digits : ℕ → Bytes → Option ℕ
read_digits n [] = some n
read_digits n (c ∷ s) =
    let rest = read_digits (n * 10 + (c - b'0')) s in if within b'0' b'9' c then rest else none

unfoldable pub parse_digits : Bytes → Option ℕ
unfolding read_digits
parse_digits [] = none
parse_digits (c ∷ s) = read_digits 0 (c ∷ s)

read_digits-value : (n : ℕ) (s : Bytes) → All IsDigit s → read_digits n s ≡ some (value n s)
unfolding read_digits
read_digits-value n [] h = refl
read_digits-value n (c ∷ s) ((lo, hi), h) =
    ground (arith, read_digits-value (n * 10 + (c - b'0')) s h)

pub parse_digits-value : (s : Bytes) → s ≢ [] → All IsDigit s → parse_digits s ≡ some (value 0 s)
unfolding parse_digits
parse_digits-value [] ne h = absurd (ne refl)
parse_digits-value (c ∷ s) ne h = read_digits-value 0 (c ∷ s) h

-- A positive number is printed with a first digit that is not 0.
digits-head :
    (fuel n : ℕ) (out : Bytes)
    → 0 < n
    → n < fuel
    → (c : ℕ) × (t : Bytes) × (digits fuel n out ≡ c ∷ t) × (b'1' ≤ c) × (c ≤ b'9')
unfolding digits
digits-head zero n out h k = absurd (omega arith)
digits-head (suc fuel) n out h k = elim (Bool-cases (ltb n 10)) [
  | inl e ↦ (b'0' + n, out, rw e, omega arith, ground arith)
  | inr e ↦ rw e (digits-head fuel (n / 10) ((b'0' + n % 10) ∷ out) (ground arith) (ground arith))
]

pub itoa-head : (n : ℕ) → 0 < n → (c : ℕ) × (t : Bytes) × (itoa n ≡ c ∷ t) × (b'1' ≤ c) × (c ≤ b'9')
unfolding itoa
itoa-head n h = digits-head (suc n) n [] h (omega arith)
