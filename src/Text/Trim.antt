-- ===== src/Text/Trim.antt =====
-- `strings.TrimRight` with an ASCII cutset, and `strings.TrimSpace`.
--
-- Go trims runes. A rune of white space is recognised by its UTF-8 encoding, and no part of
-- another encoding looks like one, so the width of the white space at the head of a text is all
-- that the trimming needs.
pub mod Braces
use argonaut.Prelude.{
  ℕ, zero, suc, ◌≡◌, refl, ap, ◌∙◌, Bool, true, false, ◌&&◌, ◌||◌, [], ◌∷◌, ◌++◌, arith, ◌==◌,
  within, if◌then◌else◌, Bool-cases, Bytes, All, inl, inr, ◌⊎◌,
}

abbrev pub is_newline : ℕ → Bool
is_newline c = c == b'\n'

abbrev pub is_break : ℕ → Bool
is_break c = c == b'\n' || c == b'\r'

-- what is left of a text behind its first byte `c` is put back behind `c`
keep : (ℕ → Bool) → ℕ → Bytes → Bytes
keep cut c [] = if cut c then [] else c ∷ []
keep cut c (d ∷ r) = c ∷ d ∷ r

-- `strings.TrimRight(s, cutset)` for a cutset of ASCII bytes
unfoldable pub trim_right : (ℕ → Bool) → Bytes → Bytes
unfolding keep
trim_right cut [] = []
trim_right cut (c ∷ s) = keep cut c (trim_right cut s)

-- the bytes behind `c` finish a two-byte space, U+0085 or U+00A0
second : Bytes → Bool
second [] = false
second (d ∷ s) = d == 0x85 || d == 0xa0

-- `c d e` encodes a three-byte space: U+1680, U+2000 to U+200A, U+2028, U+2029, U+202F, U+205F
-- or U+3000
third : ℕ → ℕ → ℕ → Bool
third c d e =
    (c == 0xe1 && d == 0x9a && e == 0x80)
    || (c == 0xe2 && d == 0x80 && (within 0x80 0x8a e || e == 0xa8 || e == 0xa9 || e == 0xaf))
    || (c == 0xe2 && d == 0x81 && e == 0x9f)
    || (c == 0xe3 && d == 0x80 && e == 0x80)

wide : ℕ → Bytes → ℕ
unfolding third
wide c (d ∷ e ∷ s) = if third c d e then 3 else 0
wide c _ = 0

-- The number of bytes of the white space rune (`unicode.IsSpace`) at the head of a text, or 0.
unfoldable pub space_width : Bytes → ℕ
unfolding second wide
space_width [] = 0
space_width (c ∷ s) =
    if within b'\t' b'\r' c || c == b' ' then 1 else if c == 0xc2 && second s then 2 else wide c s

-- The text behind its first `skip` bytes is white space.
all_space_from : ℕ → Bytes → Bool
all_space_from skip [] = true
all_space_from (suc skip) (c ∷ s) = all_space_from skip s
all_space_from zero (c ∷ s) = elim (space_width (c ∷ s)) [
  | zero ↦ false
  | suc w ↦ all_space_from w s
]

-- `strings.TrimSpace(s) == ""`
unfoldable pub all_space : Bytes → Bool
unfolding all_space_from
all_space = all_space_from 0

trim_left_from : ℕ → Bytes → Bytes
trim_left_from skip [] = []
trim_left_from (suc skip) (c ∷ s) = trim_left_from skip s
trim_left_from zero (c ∷ s) = elim (space_width (c ∷ s)) [
  | zero ↦ c ∷ s
  | suc w ↦ trim_left_from w s
]

-- cuts at the first place behind which all is white space
trim_space_right : Bytes → Bytes
unfolding all_space
trim_space_right [] = []
trim_space_right (c ∷ s) =
    let rest = trim_space_right s in if all_space (c ∷ s) then [] else c ∷ rest

-- `strings.TrimSpace`
unfoldable pub trim_space : Bytes → Bytes
unfolding trim_left_from trim_space_right
trim_space s = trim_space_right (trim_left_from 0 s)

module _ (cut : ℕ → Bool) where
  keep_split :
      (c : ℕ) (r t : Bytes)
      → All (λ c. cut c ≡ true) t
      → (u : Bytes) × (c ∷ (r ++ t) ≡ keep cut c r ++ u) × All (λ c. cut c ≡ true) u
  unfolding keep
  keep_split c [] t h = elim (Bool-cases (cut c)) [
    | inl e ↦ (c ∷ t, rw e, (e, h))
    | inr e ↦ (t, rw e, h)
  ]
  keep_split c (d ∷ r) t h = (t, refl, h)

  trim_right-keep :
      (c : ℕ) (r : Bytes) → trim_right cut r ≡ r → trim_right cut (keep cut c r) ≡ keep cut c r
  unfolding trim_right
  trim_right-keep c [] h = ground arith
  trim_right-keep c (d ∷ r) h = rw h

  -- What `trim_right` cuts off is the end of the text, in the cutset throughout.
  pub trim_right_split :
      (s : Bytes) → (t : Bytes) × (s ≡ trim_right cut s ++ t) × All (λ c. cut c ≡ true) t
  unfolding trim_right
  trim_right_split [] = ([], refl, tt)
  trim_right_split (c ∷ s) =
      let (t, e, h) = trim_right_split s in
      let (u, e', h') = keep_split c (trim_right cut s) t h in (u, ap (◌∷◌ c) e ∙ e', h')

  keep-last :
      (c : ℕ) (r : Bytes)
      → (r ≡ []) ⊎ ((t : Bytes) × (last : ℕ) × (r ≡ t ++ last ∷ []) × (cut last ≡ false))
      → (keep cut c r ≡ [])
        ⊎ ((t : Bytes) × (last : ℕ) × (keep cut c r ≡ t ++ last ∷ []) × (cut last ≡ false))
  unfolding keep
  keep-last c [] h = elim (Bool-cases (cut c)) [
    | inl e ↦ inl (rw e refl)
    | inr e ↦ inr ([], c, rw e refl, e)
  ]
  keep-last c (d ∷ r) (inl h) = absurd cc
  keep-last c (d ∷ r) (inr (t, last, e, f)) = inr (c ∷ t, last, ap (◌∷◌ c) e, f)

  -- What is left ends in a byte outside the cutset, unless nothing is left.
  pub trim_right-last :
      (s : Bytes)
      → (trim_right cut s ≡ [])
        ⊎ ((t : Bytes) × (last : ℕ) × (trim_right cut s ≡ t ++ last ∷ []) × (cut last ≡ false))
  unfolding trim_right
  trim_right-last [] = inl refl
  trim_right-last (c ∷ s) = keep-last c (trim_right cut s) (trim_right-last s)

  pub trim_right-append-cut :
      (s t : Bytes) → All (λ c. cut c ≡ true) t → trim_right cut (s ++ t) ≡ trim_right cut s
  unfolding trim_right
  trim_right-append-cut [] [] h = refl
  trim_right-append-cut [] (c ∷ t) (hc, ht) = rw (trim_right-append-cut [] t ht) (ground arith)
  trim_right-append-cut (c ∷ s) t h = rw (trim_right-append-cut s t h)

  pub trim_right_idem : (s : Bytes) → trim_right cut (trim_right cut s) ≡ trim_right cut s
  unfolding trim_right
  trim_right_idem [] = refl
  trim_right_idem (c ∷ s) = trim_right-keep c (trim_right cut s) (trim_right_idem s)

  -- A text that ends in a byte outside the cutset is left alone.
  pub trim_right-concat :
      (s : Bytes) (c : ℕ) → cut c ≡ false → trim_right cut (s ++ c ∷ []) ≡ s ++ c ∷ []
  unfolding trim_right
  trim_right-concat [] c h = ground arith
  trim_right-concat (x ∷ []) c h = rw (trim_right-concat [] c h)
  trim_right-concat (x ∷ y ∷ s) c h = rw (trim_right-concat (y ∷ s) c h)
