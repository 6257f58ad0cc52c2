-- ===== src/Text/Trim/Braces.antt =====
-- `strings.TrimSpace` on ASCII text in braces.
use argonaut.Text.Trim.{
  space_width, third, wide, all_space, all_space_from, trim_left_from, trim_space_right, trim_space,
}
use argonaut.Prelude.{
  ℕ, ◌<◌, ◌≡◌, ◌⊎◌, refl, ap, ◌∙◌, inl, inr, false, ◌||◌, [], ◌∷◌, ◌++◌, Bytes, All, arith, ◌==◌,
  within, Bool-cases,
}

abbrev pub IsAscii : ℕ → Type 0
IsAscii c = c < 0x80

-- the end of a line behind an object
abbrev pub line_end : Bytes
line_end = b'}' ∷ b'\n' ∷ []

ascii_wide : (c : ℕ) (s : Bytes) → IsAscii c → wide c s ≡ 0
unfolding wide third
ascii_wide c [] h = refl
ascii_wide c (d ∷ []) h = refl
ascii_wide c (d ∷ e ∷ s) h =
    let a : (c == 0xe1) ≡ false = ground arith in
    let b : (c == 0xe2) ≡ false = ground arith in
    let f : (c == 0xe3) ≡ false = ground arith in rw (a, b, f)

ascii_width :
    (c : ℕ) (s : Bytes) → IsAscii c → (space_width (c ∷ s) ≡ 0) ⊎ (space_width (c ∷ s) ≡ 1)
unfolding space_width
ascii_width c s h =
    let two : (c == 0xc2) ≡ false = ground arith in
    elim (Bool-cases (within b'\t' b'\r' c || c == b' ')) [
      | inl e ↦ inr (rw e)
      | inr e ↦ inl (rw (e, two) (ascii_wide c s h))
    ]

not_blank : (s : Bytes) → All IsAscii s → all_space_from 0 (s ++ line_end) ≡ false
unfolding all_space_from
not_blank [] h = unfold space_width in refl
not_blank (c ∷ s) (p, h) = elim (ascii_width c (s ++ line_end) p) [
  | inl e ↦ rw (e, all_space_from)
  | inr e ↦ rw (e, all_space_from) (not_blank s h)
]

kept_right : (s : Bytes) → All IsAscii s → trim_space_right (s ++ line_end) ≡ s ++ b'}' ∷ []
unfolding trim_space_right all_space
kept_right [] h = unfold all_space_from space_width in refl
kept_right (c ∷ s) (p, h) = rw (not_blank (c ∷ s) (p, h), kept_right s h)

pub trim_space-braces :
    (s : Bytes) → All IsAscii s → trim_space (b'{' ∷ (s ++ line_end)) ≡ b'{' ∷ (s ++ b'}' ∷ [])
unfolding trim_space trim_left_from space_width
trim_space-braces s h =
    let e : trim_left_from 0 (b'{' ∷ (s ++ line_end)) ≡ b'{' ∷ (s ++ line_end) =
      rw (left (b'{' ∷ (s ++ line_end)) (ascii_wide b'{' (s ++ line_end) (omega arith))) in
    ap trim_space_right e ∙ kept_right (b'{' ∷ s) (omega arith, h)
  where
    left : (t : Bytes) → space_width t ≡ 0 → trim_left_from 0 t ≡ t
    left [] h = refl
    left (c ∷ t) h = rw (h, trim_left_from)
