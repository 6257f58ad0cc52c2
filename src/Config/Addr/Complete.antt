-- ===== src/Config/Addr/Complete.antt =====
-- The parser of IPv4 addresses on dotted prints of four octets.
use argonaut.Config.Addr.{parse_fields, dotted_first, parse_v4, dotted, IsByte, Spells}
use argonaut.Config.Addr.Sound.{parse_v4_sound}
use argonaut.Text.Decimal.{itoa, itoa_digit, itoa-snoc, itoa-ne-nil, IsDigit, itoa-IsDigit}
use argonaut.Text.Split.{join}
use argonaut.Prelude.{
  ℕ, ◌+◌, ◌-◌, ◌*◌, ◌/◌, ◌%◌, ◌≤◌, ◌<◌, ◌≡◌, ◌≢◌, ◌↔◌, ◌⊎◌, inl, inr, refl, ap, ◌∙◌, true, false,
  List, [], ◌∷◌, ◌++◌, append-nil, append_assoc, some, arith, ltb, Bool-cases, Bytes, All, length,
}

parse_digit :
    (val dig_len d : ℕ) (done : List ℕ) (s : Bytes)
    → d < 10
    → (0 < dig_len → 0 < val)
    → val * 10 + d ≤ 255
    → parse_fields val dig_len done ((b'0' + d) ∷ s)
      ≡ parse_fields (val * 10 + d) (dig_len + 1) done s
unfolding parse_fields
parse_digit val dig_len d done s hd pos small =
    let same : b'0' + d - b'0' ≡ d = omega arith in rw same (ground (arith, pos))

-- Reading the print of an octet from a fresh start gives the octet.
record Reads (o : ℕ) (done : List ℕ) (s : Bytes) : Type 0 where
  dig_len : ℕ
  some_digit : 0 < dig_len
  reads : parse_fields 0 0 done (itoa o ++ s) ≡ parse_fields o dig_len done s

module _ (done : List ℕ) (s : Bytes) where
  parse_one : (d : ℕ) → d < 10 → parse_fields 0 0 done ((b'0' + d) ∷ s) ≡ parse_fields d 1 done s
  parse_one d hd =
      parse_digit 0 0 d done s hd (λ h. absurd (omega arith)) (omega arith)
      ∙ ap (λ v. parse_fields v 1 done s) (omega arith)

  Reads-one : (d : ℕ) → d < 10 → Reads d done s
  Reads-one d hd = record {
    dig_len = 1;
    some_digit = omega arith;
    reads = rw (itoa_digit d hd) (parse_one d hd);
  }

-- A digit more, behind a positive value.
Reads-snoc :
    (done : List ℕ) (s : Bytes) (n d : ℕ)
    → 0 < n
    → d < 10
    → n * 10 + d ≤ 255
    → Reads n done ((b'0' + d) ∷ s)
    → Reads (n * 10 + d) done s
Reads-snoc done s n d hn hd small r = record {
  dig_len = r.dig_len + 1;
  some_digit = omega arith;
  reads =
      rw (itoa-snoc n d hn hd, append_assoc) r.reads
      ∙ parse_digit n r.dig_len d done s hd (λ _. hn) small;
}

parse-itoa : (o : ℕ) (done : List ℕ) (s : Bytes) → o ≤ 255 → Reads o done s
parse-itoa o done s h = elim (Bool-cases (ltb o 10)) [
  | inl one ↦ Reads-one done s o (ground arith)
  | inr more ↦
      let e : o / 10 * 10 + o % 10 ≡ o = omega arith in
      rw e at (
        Reads-snoc done s (o / 10) (o % 10) (ground arith) (omega arith) (omega arith)
          (front (Bool-cases (ltb (o / 10) 10))))
]
  where
    rest : Bytes
    rest = (b'0' + o % 10) ∷ s

    front : (ltb (o / 10) 10 ≡ true) ⊎ (ltb (o / 10) 10 ≡ false) → Reads (o / 10) done rest
    front (inl one) = Reads-one done rest (o / 10) (ground arith)
    front (inr more) =
        let e : o / 10 / 10 * 10 + o / 10 % 10 ≡ o / 10 = omega arith in
        rw e at (
          Reads-snoc done rest (o / 10 / 10) (o / 10 % 10) (ground arith) (omega arith)
            (omega arith) (Reads-one done _ (o / 10 / 10) (ground arith)))

parse_dot :
    (val dig_len : ℕ) (done : List ℕ) (s : Bytes)
    → 0 < dig_len
    → s ≢ []
    → length done < 3
    → parse_fields val dig_len done (b'.' ∷ s) ≡ parse_fields 0 0 (done ++ val ∷ []) s
unfolding parse_fields
parse_dot val dig_len done [] h ne few = absurd (ne refl)
parse_dot val dig_len done (c ∷ s) h ne few = ground arith

parse_octet :
    (o : ℕ) (done : List ℕ) (s : Bytes)
    → o ≤ 255
    → s ≢ []
    → length done < 3
    → parse_fields 0 0 done (itoa o ++ b'.' ∷ s) ≡ parse_fields 0 0 (done ++ o ∷ []) s
parse_octet o done s h ne few =
    let r = parse-itoa o done (b'.' ∷ s) h in
    r.reads ∙ parse_dot o r.dig_len done s r.some_digit ne few

parse_last :
    (o : ℕ) (done : List ℕ)
    → o ≤ 255
    → length done ≡ 3
    → parse_fields 0 0 done (itoa o) ≡ some (done ++ o ∷ [])
parse_last o done h full =
    let r = parse-itoa o done [] h in rw append-nil at r.reads ∙ unfold parse_fields in ground arith

dotted_first-digits : (p s : Bytes) → All IsDigit p → dotted_first (p ++ b'.' ∷ s) ≡ true
unfolding dotted_first
dotted_first-digits [] s h = refl
dotted_first-digits (c ∷ p) s (hc, hp) = ground (arith, dotted_first-digits p s hp)

append-ne-nil : (p s : Bytes) → p ≢ [] → p ++ s ≢ []
append-ne-nil [] s h = absurd (h refl)
append-ne-nil (c ∷ p) s h = cc

-- Every dotted print of four octets is accepted.
parse_v4-dotted : (os : List ℕ) → length os ≡ 4 → All IsByte os → parse_v4 (dotted os) ≡ some os
unfolding parse_v4 join
parse_v4-dotted (a ∷ b ∷ c ∷ d ∷ []) four (ha, (hb, (hc, (hd, _)))) =
    rw (dotted_first-digits (itoa a) _ (itoa-IsDigit a)) (
      parse_octet a [] _ ha (append-ne-nil (itoa b) _ (itoa-ne-nil b)) (omega arith)
      ∙ parse_octet b (a ∷ []) _ hb (append-ne-nil (itoa c) _ (itoa-ne-nil c)) (omega arith)
      ∙ parse_octet c (a ∷ b ∷ []) _ hc (itoa-ne-nil d) (omega arith)
      ∙ parse_last d (a ∷ b ∷ c ∷ []) hd refl)
parse_v4-dotted _ four h = absurd (omega arith)

-- The address parser accepts exactly the canonical prints: it returns four octets just for their
-- dotted decimal print, with no leading zero and no other spelling.
pub parse_v4_iff : (s : Bytes) (os : List ℕ) → (parse_v4 s ≡ some os) ↔ Spells os s
parse_v4_iff s os = (parse_v4_sound s, λ sp. rw sp.spelled (parse_v4-dotted os sp.four sp.octets))
