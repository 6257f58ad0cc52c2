-- ===== src/Json/Strings/Plain.antt =====
-- Strings that are written as they are.
use argonaut.Json.Strings.{
  plain, scan_string, quote, quote_from, quote_head, quote_rune, unquote, unquote_from,
  unquote_head,
}
use argonaut.Text.Utf8.{rune_width}
use argonaut.Prelude.{
  ℕ, ◌≤◌, ◌<◌, ◌≡◌, ◌≢◌, refl, inl, inr, Bool, true, false, ◌&&◌, ◌||◌, [], ◌∷◌, ◌++◌, some, Bytes,
  All, ltb, leb, not, ◌==◌, arith, Bool-cases,
}

-- A printable ASCII byte that the encoder does not escape.
abbrev pub IsPlain : ℕ → Type 0
IsPlain c =
    (0x20 ≤ c) × (c < 0x80) × (c ≢ b'"') × (c ≢ b'\\') × (c ≢ b'<') × (c ≢ b'>') × (c ≢ b'&')

quote_head_plain : (c : ℕ) (s : Bytes) → IsPlain c → quote_head c s ≡ (c ∷ [], 0)
unfolding quote_head rune_width quote_rune
quote_head_plain c s h = ground arith

pub quote_plain : (s : Bytes) → All IsPlain s → quote s ≡ s
unfolding quote quote_from
quote_plain [] h = refl
quote_plain (c ∷ s) (p, h) = rw (quote_head_plain c s p, quote_plain s h)

pub scan_plain :
    (s rest : Bytes) → All IsPlain s → scan_string plain (s ++ b'"' ∷ rest) ≡ some (s, rest)
unfolding scan_string
scan_plain [] rest h = refl
scan_plain (c ∷ s) rest (p, h) =
    let ends : (c == b'"') ≡ false = ground arith in
    let back : (c == b'\\') ≡ false = ground arith in
    let low : ltb c 0x20 ≡ false = ground arith in
    rw (ends, back, low, scan_string) (rw (scan_plain s rest h))

pub unquote_plain : (s : Bytes) → All IsPlain s → unquote s ≡ s
unfolding unquote unquote_from unquote_head rune_width
unquote_plain [] h = refl
unquote_plain (c ∷ s) (p, h) =
    let back : (c == b'\\') ≡ false = ground arith in
    let low : ltb c 0x80 ≡ true = ground arith in rw (back, low, unquote_plain s h)

unfoldable pub plain_byte : ℕ → Bool
plain_byte c =
    leb 0x20 c && ltb c 0x80 && not (c == b'"' || c == b'\\' || c == b'<' || c == b'>' || c == b'&')

plain_byte-Plain : (c : ℕ) → plain_byte c ≡ true → IsPlain c
unfolding plain_byte
plain_byte-Plain c h = (
  ground arith,
  ground arith,
  λ e. ground arith,
  λ e. ground arith,
  λ e. ground arith,
  λ e. ground arith,
  λ e. ground arith,
)

-- A test for it, for texts that are at hand.
unfoldable pub plain_bytes : Bytes → Bool
plain_bytes [] = true
plain_bytes (c ∷ s) = plain_byte c && plain_bytes s

pub plain_bytes-Plain : (s : Bytes) → plain_bytes s ≡ true → All IsPlain s
unfolding plain_bytes
plain_bytes-Plain [] h = tt
plain_bytes-Plain (c ∷ s) h = elim (Bool-cases (plain_byte c)) [
  | inl e ↦ (plain_byte-Plain c e, plain_bytes-Plain s (rw e at h))
  | inr e ↦ absurd (let h' = rw e at h in cc)
]
