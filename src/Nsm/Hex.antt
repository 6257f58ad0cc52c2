-- ===== src/Nsm/Hex.antt =====
-- `encoding/hex` and the three functions of nsm.go that decode the fields of a request.
--
-- The Go functions return a slice and an error code, "" for none. Here the code of a failure is
-- the error of a `Result`. A nil slice is `none`.
pub mod Codes
pub mod RoundTrip
use argonaut.Prelude.{
  ℕ, suc, ◌+◌, ◌-◌, ◌*◌, ◌/◌, ◌%◌, ◌≤◌, ◌<◌, ◌≡◌, ◌≢◌, ◌⊎◌, inl, inr, refl, sym, ap, ◌∙◌, Bool,
  true, false, List, [], ◌∷◌, ◌++◌, arith, Option, none, some, Result, ok, err, Bool-cases, Bytes,
  codes, equal, All, length, if◌then◌else◌, within, ltb,
}

abbrev pub Byte : ℕ → Type 0
Byte c = c < 256

-- `hextable[n]`
abbrev pub hex_digit : ℕ → ℕ
hex_digit n = if ltb n 10 then b'0' + n else b'a' + (n - 10)

-- `hex.EncodeToString`
unfoldable pub encode : Bytes → Bytes
encode [] = []
encode (c ∷ s) = hex_digit (c / 16) ∷ hex_digit (c % 16) ∷ encode s

-- the value of a digit, in either case
unfoldable pub digit_value : ℕ → Option ℕ
digit_value c =
    if within b'0' b'9' c
    then some (c - b'0')
    else if within b'a' b'f' c
    then some (c - b'a' + 10)
    else if within b'A' b'F' c
    then some (c - b'A' + 10)
    else none

push : Option ℕ → Option ℕ → Option Bytes → Option Bytes
push (some hi) (some lo) (some bs) = some ((hi * 16 + lo) ∷ bs)
push _ _ _ = none

-- `hex.DecodeString`; every error is `none`
unfoldable pub decode : Bytes → Option Bytes
unfolding push
decode [] = some []
decode (c ∷ []) = none
decode (c ∷ d ∷ s) = push (digit_value c) (digit_value d) (decode s)

require_some : Bytes → Bytes → Result Bytes Bytes
require_some missing [] = err missing
require_some missing (c ∷ s) = ok (c ∷ s)

required_of : Bytes → Option Bytes → Result Bytes Bytes
unfolding require_some
required_of missing none = err (codes "invalid_hex")
required_of missing (some decoded) = require_some missing decoded

-- `decodeRequiredHex`
unfoldable pub decode_required_hex : Bytes → Bytes → Result Bytes Bytes
unfolding required_of
decode_required_hex s missing = if equal s [] then err missing else required_of missing (decode s)

optional_of : Option Bytes → Result Bytes (Option Bytes)
optional_of none = err (codes "invalid_hex")
optional_of (some decoded) = ok (some decoded)

-- `decodeOptionalHex`
unfoldable pub decode_optional_hex : Bytes → Result Bytes (Option Bytes)
unfolding optional_of
decode_optional_hex s = if equal s [] then ok none else optional_of (decode s)

-- `decodeOptionalLegacyHex`
unfoldable pub decode_optional_legacy_hex : Bytes → Result Bytes (Option Bytes)
decode_optional_legacy_hex s = if equal s (codes "-") then ok none else decode_optional_hex s

digit_value-hex_digit : (n : ℕ) → n < 16 → digit_value (hex_digit n) ≡ some n
unfolding digit_value
digit_value-hex_digit n h = ground arith

-- Bytes are read back from their hexadecimal print.
pub decode-encode : (s : Bytes) → All Byte s → decode (encode s) ≡ some s
unfolding decode encode
decode-encode [] h = refl
decode-encode (c ∷ s) (hc, hs) =
    rw
      (
        digit_value-hex_digit (c / 16) (omega arith),
        digit_value-hex_digit (c % 16) (omega arith),
        decode-encode s hs,
      )
      (rejoin c s)
  where
    rejoin : (c : ℕ) (s : Bytes) → some ((c / 16 * 16 + c % 16) ∷ s) ≡ some (c ∷ s)
    rejoin c s = ap (λ n. some (n ∷ s)) (omega arith)

abbrev pub IsHexDigit : ℕ → Type 0
IsHexDigit c = ((b'0' ≤ c) × (c ≤ b'9')) ⊎ ((b'a' ≤ c) × (c ≤ b'f'))

pub encode-IsHexDigit : (s : Bytes) → All Byte s → All IsHexDigit (encode s)
unfolding encode
encode-IsHexDigit [] h = tt
encode-IsHexDigit (c ∷ s) (hc, hs) = (ground arith, (ground arith, encode-IsHexDigit s hs))
