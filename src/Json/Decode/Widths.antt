-- ===== src/Json/Decode/Widths.antt =====
-- Decoded integers and their widths.
use argonaut.Json.Decode.{decode_uint, uint_value, parse_uint, fits}
use argonaut.Text.Decimal.{
  parse_digits, parse_digits-value, itoa, itoa-ne-nil, itoa-IsDigit, value-itoa,
}
use argonaut.Json.Value.{Json, null, bool, number, text, array, object}
use argonaut.Prelude.{
  ℕ, ◌^◌, ◌<◌, ◌≡◌, Option, none, some, ok, ltb, arith, Ensures, Bool-cases, inl, inr, true,
}

abbrev pub IsUint : ℕ → ℕ → Type 0
IsUint width n = n < 2 ^ width

uint_value-IsUint : (width : ℕ) (o : Option ℕ) → Ensures (IsUint width) (uint_value (fits width o))
unfolding fits uint_value
uint_value-IsUint width none = tt
uint_value-IsUint width (some n) = elim (Bool-cases (ltb n (2 ^ width))) [
  | inl e ↦ rw (e, Ensures) (ground arith)
  | inr e ↦ rw (e, Ensures) tt
]

pub decode_uint-IsUint :
    (width old : ℕ) (v : Json) → IsUint width old → Ensures (IsUint width) (decode_uint width old v)
unfolding decode_uint parse_uint
decode_uint-IsUint width old null h = h
decode_uint-IsUint width old (number s) h = uint_value-IsUint width (parse_digits s)
decode_uint-IsUint width old (bool b) h = tt
decode_uint-IsUint width old (text b) h = tt
decode_uint-IsUint width old (array b) h = tt
decode_uint-IsUint width old (object b) h = tt

-- The print of an integer that fits is decoded to it.
pub decode_uint-itoa :
    (width old n : ℕ) → IsUint width n → decode_uint width old (number (itoa n)) ≡ ok n
unfolding decode_uint parse_uint fits uint_value
decode_uint-itoa width old n h =
    let read = parse_digits-value (itoa n) (itoa-ne-nil n) (itoa-IsDigit n) in
    let small : ltb n (2 ^ width) ≡ true = ground arith in rw (read, value-itoa n, small)
