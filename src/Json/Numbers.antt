-- ===== src/Json/Numbers.antt =====
-- The scanner's states for a number.
pub mod Decimals
use argonaut.Prelude.{
  ℕ, Bool, true, false, ◌||◌, [], ◌∷◌, Option, none, some, Bytes, ◌==◌, within, if◌then◌else◌,
}

-- stateNeg, state0, state1, stateDot, stateDot0, stateE, stateESign and stateE0; `begin` is before
-- the first byte.
pub data NumberState : Type 0 where
  begin minus leading_zero digits dot fraction exp exp_sign exp_digits : NumberState

abbrev digit_to : NumberState → ℕ → Option NumberState
digit_to st c = if within b'0' b'9' c then some st else none

abbrev exp_or_none : ℕ → Option NumberState
exp_or_none c = if c == b'e' || c == b'E' then some exp else none

abbrev integer_part : ℕ → Option NumberState
integer_part c =
    if c == b'0' then some leading_zero else if within b'1' b'9' c then some digits else none

-- The state behind a byte of the number; none where the byte is not one.
pub number_next : NumberState → ℕ → Option NumberState
number_next begin c = if c == b'-' then some minus else integer_part c
number_next minus c = integer_part c
number_next leading_zero c = if c == b'.' then some dot else exp_or_none c
number_next digits c =
    if within b'0' b'9' c then some digits else if c == b'.' then some dot else exp_or_none c
number_next dot c = digit_to fraction c
number_next fraction c = if within b'0' b'9' c then some fraction else exp_or_none c
number_next exp c = if c == b'+' || c == b'-' then some exp_sign else digit_to exp_digits c
number_next exp_sign c = digit_to exp_digits c
number_next exp_digits c = digit_to exp_digits c

-- where a number may end
unfoldable pub complete : NumberState → Bool
complete leading_zero = true
complete digits = true
complete fraction = true
complete exp_digits = true
complete _ = false

abbrev pub add_digit : ℕ → Option (Bytes × Bytes) → Option (Bytes × Bytes)
add_digit c none = none
add_digit c (some (raw, rest)) = some (c ∷ raw, rest)

abbrev pub stop : NumberState → Bytes → Option (Bytes × Bytes)
stop st rest = if complete st then some ([], rest) else none

-- The text of the number at the head, and what is behind it.
unfoldable pub scan_number : NumberState → Bytes → Option (Bytes × Bytes)
unfolding number_next complete
scan_number st [] = stop st []
scan_number st (c ∷ s) = elim (number_next st c) [
  | some st' ↦ add_digit c (scan_number st' s)
  | none ↦ stop st (c ∷ s)
]
