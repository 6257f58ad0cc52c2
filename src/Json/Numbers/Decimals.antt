-- ===== src/Json/Numbers/Decimals.antt =====
-- Decimal prints as JSON numbers.
use argonaut.Json.Numbers.{begin, digits, leading_zero, scan_number}
use argonaut.Text.Decimal.{itoa, IsDigit, itoa-IsDigit, itoa-head, itoa_digit}
use argonaut.Prelude.{
  ℕ, zero, suc, ◌≤◌, ◌≡◌, ◌⊎◌, refl, true, false, [], ◌∷◌, ◌++◌, some, Bytes, All, ◌==◌, within,
  arith,
}

-- The text ends, or something that cannot continue a number stands there.
abbrev pub Stops : Bytes → Type 0
Stops [] = Unit
Stops (c ∷ s) = (c ≡ b',') ⊎ (c ≡ b']') ⊎ (c ≡ b'}')

digits_stop : (rest : Bytes) → Stops rest → scan_number digits rest ≡ some ([], rest)
unfolding scan_number
digits_stop [] h = refl
digits_stop (c ∷ s) h = ground arith

scan_digits :
    (s rest : Bytes) → All IsDigit s → Stops rest → scan_number digits (s ++ rest) ≡ some (s, rest)
unfolding scan_number
scan_digits [] rest h k = digits_stop rest k
scan_digits (c ∷ s) rest ((lo, hi), h) k =
    let d : within b'0' b'9' c ≡ true = ground arith in
    rw (d, scan_number) (rw (scan_digits s rest h k))

zero_stop : (rest : Bytes) → Stops rest → scan_number leading_zero rest ≡ some ([], rest)
unfolding scan_number
zero_stop [] h = refl
zero_stop (c ∷ s) h = ground arith

-- A text that is read whole as a number, and begins like one.
pub record IsNumber (n : Bytes) : Type 0 where
  pub first : ℕ
  pub more : Bytes
  pub shape : n ≡ first ∷ more
  pub digit : IsDigit first
  pub reads : (rest : Bytes) → Stops rest → scan_number begin (n ++ rest) ≡ some (n, rest)

pub itoa-IsNumber : (n : ℕ) → IsNumber (itoa n)
unfolding scan_number
itoa-IsNumber zero = rw (itoa_digit 0 (omega arith)) (record {
  first = b'0';
  more = [];
  shape = refl;
  digit = omega arith;
  reads = λ rest h. rw (zero_stop rest h);
})
itoa-IsNumber (suc n) =
    let (c, t, e, lo, hi) = itoa-head (suc n) (omega arith) in
    let all = rw e at (itoa-IsDigit (suc n)) in
    rw e (record {
      first = c;
      more = t;
      shape = refl;
      digit = (omega arith, hi);
      reads = λ rest h. positive c t rest lo hi all.1 h;
    })
  where
    positive :
        (c : ℕ) (t rest : Bytes)
        → b'1' ≤ c
        → c ≤ b'9'
        → All IsDigit t
        → Stops rest
        → scan_number begin (c ∷ t ++ rest) ≡ some (c ∷ t, rest)
    positive c t rest lo hi h k =
        let m : (c == b'-') ≡ false = ground arith in
        let z : (c == b'0') ≡ false = ground arith in
        let d : within b'1' b'9' c ≡ true = ground arith in
        rw (m, z, d, scan_number) (rw (scan_digits t rest h k))
