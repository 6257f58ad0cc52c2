-- ===== src/Text/Utf8.antt =====
-- unicode/utf8: which bytes encode a rune, and the encoding of a rune.
use argonaut.Prelude.{
  ℕ, ◌+◌, ◌/◌, ◌%◌, Bool, ◌&&◌, [], ◌∷◌, Bytes, ltb, ◌==◌, within, if◌then◌else◌,
}

-- The encoding of U+FFFD, `utf8.RuneError`.
abbrev pub rune_error : Bytes
rune_error = 0xef ∷ 0xbf ∷ 0xbd ∷ []

continues : ℕ → Bool
continues c = within 0x80 0xbf c

-- The least and the greatest second byte behind the first byte of three, and of four.
second_of_three : ℕ → ℕ → Bool
unfolding continues
second_of_three c d =
    if c == 0xe0 then within 0xa0 0xbf d else if c == 0xed then within 0x80 0x9f d else continues d

second_of_four : ℕ → ℕ → Bool
unfolding continues
second_of_four c d =
    if c == 0xf0 then within 0x90 0xbf d else if c == 0xf4 then within 0x80 0x8f d else continues d

two : ℕ → Bytes → ℕ
unfolding continues
two c [] = 0
two c (d ∷ s) = if continues d then 2 else 0

three : ℕ → Bytes → ℕ
unfolding continues second_of_three
three c (d ∷ e ∷ s) = if second_of_three c d && continues e then 3 else 0
three c _ = 0

four : ℕ → Bytes → ℕ
unfolding continues second_of_four
four c (d ∷ e ∷ f ∷ s) = if second_of_four c d && continues e && continues f then 4 else 0
four c _ = 0

-- The number of bytes of the rune at the head of a text, or 0 where `utf8.DecodeRune` returns
-- `RuneError` and a width of 1.
unfoldable pub rune_width : Bytes → ℕ
unfolding two three four
rune_width [] = 0
rune_width (c ∷ s) =
    if ltb c 0x80
    then 1
    else if within 0xc2 0xdf c
    then two c s
    else if within 0xe0 0xef c
    then three c s
    else if within 0xf0 0xf4 c
    then four c s
    else 0

-- `utf8.AppendRune`, for a number that is not above U+10FFFF
unfoldable pub encode_rune : ℕ → Bytes
encode_rune r =
    if ltb r 0x80
    then r ∷ []
    else if ltb r 0x800
    then (0xc0 + r / 64) ∷ (0x80 + r % 64) ∷ []
    else if within 0xd800 0xdfff r
    then rune_error
    else if ltb r 0x10000
    then (0xe0 + r / 4096) ∷ (0x80 + (r / 64) % 64) ∷ (0x80 + r % 64) ∷ []
    else (0xf0 + r / 262144)
      ∷ (0x80 + (r / 4096) % 64)
      ∷ (0x80 + (r / 64) % 64)
      ∷ (0x80 + r % 64)
      ∷ []
