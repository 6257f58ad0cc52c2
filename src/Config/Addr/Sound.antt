-- ===== src/Config/Addr/Sound.antt =====
-- What the parser of IPv4 addresses accepts.
use argonaut.Config.Addr.{parse_fields, dotted_first, parse_v4, dotted, is_nil, IsByte, Spells}
use argonaut.Text.Decimal.{itoa, itoa_digit, itoa-snoc}
use argonaut.Text.Split.{join}
use argonaut.Prelude.{
  ℕ, zero, suc, ◌+◌, ◌-◌, ◌*◌, ◌≤◌, ◌<◌, ◌≡◌, ◌≢◌, inl, inr, refl, sym, ◌∙◌, true, false, ◌&&◌,
  ◌||◌, List, [], ◌∷◌, ◌++◌, append-nil, append_assoc, some, arith, ltb, ◌==◌, within, Bool-cases,
  Bytes, All, All-append, length, length-append,
}

-- the digits of the current octet
current : ℕ → ℕ → Bytes
current zero val = []
current (suc d) val = itoa val

-- the octets before it, each with its dot
before : List ℕ → Bytes
before [] = []
before (o ∷ os) = itoa o ++ b'.' ∷ before os

before-concat : (os : List ℕ) (o : ℕ) → before (os ++ o ∷ []) ≡ before os ++ (itoa o ++ b'.' ∷ [])
unfolding before
before-concat [] o = refl
before-concat (x ∷ os) o = rw (before-concat os o) (simp append_assoc)

dotted-concat : (os : List ℕ) (o : ℕ) → dotted (os ++ o ∷ []) ≡ before os ++ itoa o
unfolding before join
dotted-concat [] o = refl
dotted-concat (x ∷ []) o = simp append_assoc
dotted-concat (x ∷ y ∷ os) o = rw (dotted-concat (y ∷ os) o) (simp append_assoc)

-- The state of the loop: no digit so far means no value, and only a lone digit can be zero.
record InOctet (val dig_len : ℕ) (done : List ℕ) : Type 0 where
  fresh : dig_len ≡ 0 → val ≡ 0
  no_leading_zero : 2 ≤ dig_len → 0 < val
  val_byte : val ≤ 255
  few : length done ≤ 3

current_pos : (dig_len val : ℕ) → 0 < dig_len → current dig_len val ≡ itoa val
unfolding current
current_pos zero val h = absurd (omega arith)
current_pos (suc k) val h = refl

current_digit :
    (val dig_len d : ℕ)
    → d < 10
    → (dig_len ≡ 0 → val ≡ 0)
    → (0 < dig_len → 0 < val)
    → current (dig_len + 1) (val * 10 + d) ≡ current dig_len val ++ (b'0' + d) ∷ []
current_digit val dig_len d hd z p =
    current_pos (dig_len + 1) _ (omega arith) ∙ from_old dig_len z p
  where
    from_old :
        (k : ℕ)
        → (k ≡ 0 → val ≡ 0)
        → (0 < k → 0 < val)
        → itoa (val * 10 + d) ≡ current k val ++ (b'0' + d) ∷ []
    from_old zero z p =
        let e : val * 10 + d ≡ d = omega (arith, z refl) in rw e (unfold current in itoa_digit d hd)
    from_old (suc k) z p = unfold current in itoa-snoc val d (p (omega arith)) hd

parse_fields_end :
    (val dig_len : ℕ) (done : List ℕ) {os : List ℕ}
    → InOctet val dig_len done
    → All IsByte done
    → dig_len ≢ 0
    → parse_fields val dig_len done [] ≡ some os
    → Spells os (before done ++ current dig_len val)
unfolding parse_fields current
parse_fields_end val zero done inv bs d h = absurd (d refl)
parse_fields_end val (suc k) done {os} inv bs d h = elim (Bool-cases (ltb (length done) 3)) [
  | inl e ↦ let h' = rw e at h in cc
  | inr e ↦
      let h' = rw e at h in
      let is : done ++ val ∷ [] ≡ os = cc in
      rw (← is) (record {
        spelled = sym (dotted-concat done val);
        four = ground (arith, length-append done (val ∷ []), inv.few);
        octets = All-append IsByte done (val ∷ []) bs (inv.val_byte, tt);
      })
]

digits_pos :
    {done : List ℕ} (val dig_len d : ℕ)
    → InOctet val dig_len done
    → ((dig_len == 1 && val == 0) || ltb 255 (val * 10 + d)) ≡ false
    → 0 < dig_len
    → 0 < val
digits_pos val dig_len d inv good h = ground (arith, inv.no_leading_zero)

after_digit :
    (val dig_len d : ℕ) (done : List ℕ)
    → InOctet val dig_len done
    → ((dig_len == 1 && val == 0) || ltb 255 (val * 10 + d)) ≡ false
    → InOctet (val * 10 + d) (dig_len + 1) done
after_digit val dig_len d done inv good = record {
  fresh = λ e. absurd (omega arith);
  no_leading_zero = λ h. omega (arith, digits_pos val dig_len d inv good (omega arith));
  val_byte = ground arith;
  few = inv.few;
}

one_digit :
    {done : List ℕ} (val dig_len c : ℕ) (s : Bytes)
    → within b'0' b'9' c ≡ true
    → InOctet val dig_len done
    → ((dig_len == 1 && val == 0) || ltb 255 (val * 10 + (c - b'0'))) ≡ false
    → current dig_len val ++ c ∷ s ≡ current (dig_len + 1) (val * 10 + (c - b'0')) ++ s
one_digit val dig_len c s is_digit inv good =
    let d = c - b'0' in
    let same : b'0' + d ≡ c = ground arith in
    rw (current_digit val dig_len d (ground arith) inv.fresh (digits_pos val dig_len d inv good))
      (rw (append_assoc, same))

module _ {done : List ℕ} (val dig_len : ℕ) (s : Bytes) where
  after_dot :
      InOctet val dig_len done
      → (dig_len == 0 || is_nil s || length done == 3) ≡ false
      → InOctet 0 0 (done ++ val ∷ [])
  after_dot inv good = record {
    fresh = λ _. refl;
    no_leading_zero = λ h. absurd (omega arith);
    val_byte = omega arith;
    few = ground (arith, length-append done (val ∷ []), inv.few);
  }

more : (dig_len n : ℕ) (s : Bytes) → (dig_len == 0 || is_nil s || n == 3) ≡ false → s ≢ []
more dig_len n [] good = ground arith
more dig_len n (c ∷ s) good = cc

one_dot :
    (val dig_len c : ℕ) (s : Bytes) (done : List ℕ)
    → (c == b'.') ≡ true
    → (dig_len == 0 || is_nil s || length done == 3) ≡ false
    → before done ++ (current dig_len val ++ c ∷ s)
      ≡ before (done ++ val ∷ []) ++ (current 0 0 ++ s)
unfolding current
one_dot val dig_len c s done dot good =
    let is : c ≡ b'.' = ground arith in
    rw (is, current_pos dig_len val (ground arith), before-concat done val) (simp append_assoc)

parse_fields-Spells :
    (s : Bytes) (val dig_len : ℕ) (done : List ℕ) {os : List ℕ}
    → InOctet val dig_len done
    → All IsByte done
    → (dig_len ≡ 0 → s ≢ [])
    → parse_fields val dig_len done s ≡ some os
    → Spells os (before done ++ (current dig_len val ++ s))
unfolding parse_fields
parse_fields-Spells [] val dig_len done inv bs d h =
    rw append-nil (parse_fields_end val dig_len done inv bs (λ e. d e refl) h)
parse_fields-Spells (c ∷ s) val dig_len done {os} inv bs d h =
    elim (Bool-cases (within b'0' b'9' c)) [
      | inl is_digit ↦
          elim (Bool-cases ((dig_len == 1 && val == 0) || ltb 255 (val * 10 + (c - b'0')))) [
            | inl bad ↦ let h' = rw (is_digit, bad) at h in cc
            | inr good ↦
                let rest =
                  parse_fields-Spells s (val * 10 + (c - b'0')) (dig_len + 1) done {os = os}
                    (after_digit val dig_len (c - b'0') done inv good) bs
                    (λ e. absurd (omega arith)) (rw (is_digit, good) at h) in
                rw (one_digit val dig_len c s is_digit inv good) rest
          ]
      | inr other ↦ elim (Bool-cases (c == b'.')) [
        | inl dot ↦ elim (Bool-cases (dig_len == 0 || is_nil s || length done == 3)) [
          | inl bad ↦ let h' = rw (other, dot, bad) at h in cc
          | inr good ↦
              let rest =
                parse_fields-Spells s 0 0 (done ++ val ∷ []) {os = os}
                  (after_dot val dig_len s inv good)
                  (All-append IsByte done (val ∷ []) bs (inv.val_byte, tt))
                  (λ _. more dig_len (length done) s good) (rw (other, dot, good) at h) in
              rw (one_dot val dig_len c s done dot good) rest
        ]
        | inr bad ↦ let h' = rw (other, bad) at h in cc
      ]
    ]

dotted_first-ne-nil : (s : Bytes) → dotted_first s ≡ true → s ≢ []
unfolding dotted_first
dotted_first-ne-nil [] h = cc
dotted_first-ne-nil (c ∷ s) h = cc

-- An accepted IPv4 address is the dotted print of its four octets: there is one text for each
-- address.
pub parse_v4_sound : (s : Bytes) {os : List ℕ} → parse_v4 s ≡ some os → Spells os s
unfolding parse_v4 before current
parse_v4_sound s {os} h = elim (Bool-cases (dotted_first s)) [
  | inl e ↦
      parse_fields-Spells s 0 0 [] {os = os}
        (record {
          fresh = λ _. refl;
          no_leading_zero = λ h. absurd (omega arith);
          val_byte = omega arith;
          few = omega arith;
        })
        tt (λ _. dotted_first-ne-nil s e) (rw e at h)
  | inr e ↦ let h' = rw e at h in cc
]
