-- ===== src/Json/Decode.antt =====
-- `encoding/json` from a value into a field of a struct: strings, unsigned integers, and the fields'
-- names.
pub mod Widths
use argonaut.Json.Value.{Json, null, number, text}
use argonaut.Text.Decimal.{parse_digits}
use argonaut.Prelude.{
  ℕ, ◌-◌, ◌^◌, Bool, ◌&&◌, [], ◌∷◌, Option, none, some, Result, ok, err, Bytes, equal, ltb, within,
  ◌==◌, if◌then◌else◌,
}

-- A value of the wrong kind or out of range, or a field that is not allowed. The program only says
-- that the JSON is invalid.
pub data DecodeError : Type 0 where
  wrong_value unknown_field : DecodeError

-- `literalStore` into a string: null leaves it alone.
unfoldable pub decode_text : Bytes → Json → Result DecodeError Bytes
decode_text old null = ok old
decode_text old (text s) = ok s
decode_text old _ = err wrong_value

fits : ℕ → Option ℕ → Option ℕ
fits width none = none
fits width (some n) = if ltb n (2 ^ width) then some n else none

-- `strconv.ParseUint(s, 10, width)`
unfoldable pub parse_uint : ℕ → Bytes → Option ℕ
unfolding fits
parse_uint width s = fits width (parse_digits s)

uint_value : Option ℕ → Result DecodeError ℕ
uint_value none = err wrong_value
uint_value (some n) = ok n

-- `literalStore` into an unsigned integer of that many bits
unfoldable pub decode_uint : ℕ → ℕ → Json → Result DecodeError ℕ
unfolding uint_value
decode_uint width old null = ok old
decode_uint width old (number n) = uint_value (parse_uint width n)
decode_uint width old _ = err wrong_value

abbrev pub upper_byte : ℕ → ℕ
upper_byte c = if within b'a' b'z' c then c - 32 else c

-- `foldName`, as far as an ASCII name can tell: U+017F folds to S, U+212A to K.
unfoldable pub fold_name : Bytes → Bytes
fold_name [] = []
fold_name (a ∷ []) = upper_byte a ∷ []
fold_name (a ∷ b ∷ []) =
    if a == 0xc5 && b == 0xbf then b'S' ∷ [] else upper_byte a ∷ upper_byte b ∷ []
fold_name (a ∷ b ∷ c ∷ s) =
    let two = fold_name (c ∷ s) in
    let three = fold_name s in
    let one = fold_name (b ∷ c ∷ s) in
    if a == 0xc5 && b == 0xbf
    then b'S' ∷ two
    else if a == 0xe2 && b == 0x84 && c == 0xaa
    then b'K' ∷ three
    else upper_byte a ∷ one

-- An ASCII field name matches a key whatever the case.
unfoldable pub is_field : Bytes → Bytes → Bool
is_field name key = equal (fold_name key) (fold_name name)
