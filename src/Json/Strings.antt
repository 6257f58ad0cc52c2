-- ===== src/Json/Strings.antt =====
-- JSON string literals: the scanner's states, `unquote`, and the encoder's `appendString`.
pub mod Plain
use argonaut.Nsm.Hex.{digit_value}
use argonaut.Text.Utf8.{rune_width, rune_error, encode_rune}
use argonaut.Prelude.{
  ℕ, zero, suc, ◌+◌, ◌-◌, ◌*◌, ◌/◌, ◌%◌, Bool, true, false, ◌&&◌, ◌||◌, List, [], ◌∷◌, ◌++◌, Option,
  none, some, Bytes, codes, take, ltb, ◌==◌, within, if◌then◌else◌,
}

-- stateInString, stateInStringEsc, and stateInStringEscU and those behind it, with the number of
-- hexadecimal digits still to come
pub data StringState : Type 0 where
  plain escaped : StringState
  hex_digits : ℕ → StringState

-- the letters behind a backslash, less `u`
abbrev is_escape : ℕ → Bool
is_escape c =
    c == b'b'
    || c == b'f'
    || c == b'n'
    || c == b'r'
    || c == b't'
    || c == b'\\'
    || c == b'/'
    || c == b'"'

is_hex : ℕ → Bool
is_hex c = elim (digit_value c) [ none ↦ false | some n ↦ true ]

-- The state behind a byte that does not end the string; none is a syntax error.
unfoldable pub string_next : StringState → ℕ → Option StringState
unfolding is_hex
string_next plain c = if c == b'\\' then some escaped else if ltb c 0x20 then none else some plain
string_next escaped c =
    if is_escape c then some plain else if c == b'u' then some (hex_digits 3) else none
string_next (hex_digits zero) c = if is_hex c then some plain else none
string_next (hex_digits (suc n)) c = if is_hex c then some (hex_digits n) else none

-- a quote ends the string unless it is escaped
unfoldable pub ends_string : StringState → ℕ → Bool
ends_string plain c = c == b'"'
ends_string _ c = false

abbrev pub add_byte : ℕ → Option (Bytes × Bytes) → Option (Bytes × Bytes)
add_byte c none = none
add_byte c (some (raw, rest)) = some (c ∷ raw, rest)

-- Behind the opening quote: the bytes up to the closing one, and those behind it.
unfoldable pub scan_string : StringState → Bytes → Option (Bytes × Bytes)
unfolding string_next ends_string
scan_string st [] = none
scan_string st (c ∷ s) = elim (ends_string st c) [
  | true ↦ some ([], s)
  | false ↦ elim (string_next st c) [ none ↦ none | some st' ↦ add_byte c (scan_string st' s) ]
]

-- `getu4` on the bytes behind `\u`
four_digits : Bytes → Option ℕ
four_digits (a ∷ b ∷ c ∷ d ∷ s) = elim (digit_value a) [
  | none ↦ none
  | some w ↦ elim (digit_value b) [
    | none ↦ none
    | some x ↦ elim (digit_value c) [
      | none ↦ none
      | some y ↦ elim (digit_value d) [
        | none ↦ none
        | some z ↦ some (((w * 16 + x) * 16 + y) * 16 + z)
      ]
    ]
  ]
]
four_digits _ = none

-- what follows the four digits, if it is `\u` and four digits
following : Bytes → Option ℕ
unfolding four_digits
following (_ ∷ _ ∷ _ ∷ _ ∷ b ∷ u ∷ s) = if b == b'\\' && u == b'u' then four_digits s else none
following _ = none

-- `utf16.DecodeRune`, where the pair is one
pair : ℕ → Option ℕ → Option ℕ
pair high none = none
pair high (some low) =
    if within 0xd800 0xdbff high && within 0xdc00 0xdfff low
    then some (0x10000 + (high - 0xd800) * 1024 + (low - 0xdc00))
    else none

-- The bytes that stand for an escape, and how many bytes it has behind the `u`.
unicode_escape : Bytes → Bytes × ℕ
unfolding four_digits following pair
unicode_escape s = elim (four_digits s) [
  | none ↦ (rune_error, 0)
  | some r ↦ elim (pair r (following s)) [
    | some rune ↦ (encode_rune rune, 10)
    | none ↦ (encode_rune r, 4)
  ]
]

-- The same, behind the backslash.
escape_head : Bytes → Bytes × ℕ
unfolding unicode_escape
escape_head [] = ([], 0)
escape_head (c ∷ s) =
    if c == b'u'
    then (let (out, n) = unicode_escape s in (out, suc n))
    else if c == b'b'
    then (8 ∷ [], 1)
    else if c == b'f'
    then (12 ∷ [], 1)
    else if c == b'n'
    then (10 ∷ [], 1)
    else if c == b'r'
    then (13 ∷ [], 1)
    else if c == b't'
    then (9 ∷ [], 1)
    else (c ∷ [], 1)

-- Of the unread raw text: the bytes that its first piece stands for, and how many bytes the piece
-- has behind its first. Invalid UTF-8 is replaced byte by byte.
unquote_head : ℕ → Bytes → Bytes × ℕ
unfolding escape_head
unquote_head c s =
    if c == b'\\'
    then escape_head s
    else elim (rune_width (c ∷ s)) [ zero ↦ (rune_error, 0) | suc n ↦ (take (suc n) (c ∷ s), n) ]

unquote_from : ℕ → Bytes → Bytes
unfolding unquote_head
unquote_from skip [] = []
unquote_from (suc skip) (c ∷ s) = unquote_from skip s
unquote_from zero (c ∷ s) = (unquote_head c s).0 ++ unquote_from (unquote_head c s).1 s

-- `unquote`, on the bytes between the quotes
unfoldable pub unquote : Bytes → Bytes
unfolding unquote_from
unquote = unquote_from 0

abbrev pub hex_char : ℕ → ℕ
hex_char n = if ltb n 10 then b'0' + n else b'a' + (n - 10)

-- U+2028 and U+2029 are escaped.
line_break : Bytes → Option Bytes
line_break (c ∷ d ∷ e ∷ []) =
    if c == 0xe2 && d == 0x80 && e == 0xa8
    then some (codes "\\u2028")
    else if c == 0xe2 && d == 0x80 && e == 0xa9
    then some (codes "\\u2029")
    else none
line_break _ = none

quote_rune : Bytes → ℕ → Bytes × ℕ
unfolding line_break
quote_rune rune n = elim (line_break rune) [ none ↦ (rune, n) | some out ↦ (out, n) ]

-- What `appendString` writes for the rune at the head, HTML characters escaped, and how many bytes
-- the rune has behind its first.
quote_head : ℕ → Bytes → Bytes × ℕ
unfolding quote_rune
quote_head c s =
    if c == b'"' || c == b'\\'
    then (b'\\' ∷ c ∷ [], 0)
    else if c == 8
    then (codes "\\b", 0)
    else if c == 12
    then (codes "\\f", 0)
    else if c == 10
    then (codes "\\n", 0)
    else if c == 13
    then (codes "\\r", 0)
    else if c == 9
    then (codes "\\t", 0)
    else if ltb c 0x20 || c == b'<' || c == b'>' || c == b'&'
    then (codes "\\u00" ++ hex_char (c / 16) ∷ hex_char (c % 16) ∷ [], 0)
    else elim (rune_width (c ∷ s)) [
      | zero ↦ (codes "\\ufffd", 0)
      | suc n ↦ quote_rune (take (suc n) (c ∷ s)) n
    ]

quote_from : ℕ → Bytes → Bytes
unfolding quote_head
quote_from skip [] = []
quote_from (suc skip) (c ∷ s) = quote_from skip s
quote_from zero (c ∷ s) = (quote_head c s).0 ++ quote_from (quote_head c s).1 s

-- `appendString`, less the two quotes
unfoldable pub quote : Bytes → Bytes
unfolding quote_from
quote = quote_from 0
