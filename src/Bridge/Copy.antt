-- ===== src/Bridge/Copy.antt =====
-- main.go: `copyBidirectionalResult`, its two goroutines and the channel between them.
pub mod Schedules
use argonaut.Prelude.{
  ℕ, zero, Bool, true, false, List, [], ◌∷◌, ◌++◌, Option, none, some, if◌then◌else◌,
}

-- The local type `copyOutcome`.
pub record CopyOutcome (E : Type 0) : Type 0 where
  pub bytes : ℕ
  pub error : Option E
  pub a_to_b : Bool

pub record CopyResult (E : Type 0) : Type 0 where
  pub a_to_b_bytes : ℕ
  pub b_to_a_bytes : ℕ
  pub a_to_b_err : Option E
  pub b_to_a_err : Option E

-- `copyResult.Err`
unfoldable pub error_of : {E : Type 0} → CopyResult E → Option E
error_of r = elim r.a_to_b_err [ some e ↦ some e | none ↦ r.b_to_a_err ]

-- the body of the loop over the two outcomes
put_outcome : {E : Type 0} → CopyOutcome E → CopyResult E → CopyResult E
put_outcome o r =
    if o.a_to_b
    then record r { a_to_b_bytes = o.bytes; a_to_b_err = o.error }
    else record r { b_to_a_bytes = o.bytes; b_to_a_err = o.error }

abbrev zeroed : {E : Type 0} → CopyResult E
zeroed = record { a_to_b_bytes = 0; b_to_a_bytes = 0; a_to_b_err = none; b_to_a_err = none }

unfoldable pub collect : {E : Type 0} → CopyOutcome E → CopyOutcome E → CopyResult E
unfolding put_outcome
collect first second = put_outcome second (put_outcome first zeroed)

-- How far a goroutine has come: `io.Copy`, `closeWrite`, the send on `done`.
pub data Phase : Type 0 where
  copying copied shut sent : Phase

pub record CopyState (E : Type 0) : Type 0 where
  pub a_to_b : Phase
  pub b_to_a : Phase
  pub a_write_closed : Bool
  pub b_write_closed : Bool
  pub done : List (CopyOutcome E)

abbrev pub copy_start : {E : Type 0} → CopyState E
copy_start = record {
  a_to_b = copying;
  b_to_a = copying;
  a_write_closed = false;
  b_write_closed = false;
  done = [];
}

-- What the connections do: what `io.Copy` returns in each direction, and which of them has the
-- method `CloseWrite`.
pub record Streams (E : Type 0) : Type 0 where
  pub copy_a_to_b : ℕ × Option E
  pub copy_b_to_a : ℕ × Option E
  pub a_half_closes : Bool
  pub b_half_closes : Bool

abbrev pub a_to_b_outcome : {E : Type 0} → Streams E → CopyOutcome E
a_to_b_outcome c = record { bytes = c.copy_a_to_b.0; error = c.copy_a_to_b.1; a_to_b = true }

abbrev pub b_to_a_outcome : {E : Type 0} → Streams E → CopyOutcome E
b_to_a_outcome c = record { bytes = c.copy_b_to_a.0; error = c.copy_b_to_a.1; a_to_b = false }

-- The next statement of the goroutine from a to b, or of the other one. The channel has room for
-- both outcomes, so neither send blocks.
unfoldable pub copy_step : {E : Type 0} → Streams E → Bool → CopyState E → CopyState E
copy_step c true s = elim s.a_to_b [
  | copying ↦ record s { a_to_b = copied }
  | copied ↦ record s { a_to_b = shut; b_write_closed = c.b_half_closes }
  | shut ↦ record s { a_to_b = sent; done = s.done ++ a_to_b_outcome c ∷ [] }
  | sent ↦ s
]
copy_step c false s = elim s.b_to_a [
  | copying ↦ record s { b_to_a = copied }
  | copied ↦ record s { b_to_a = shut; a_write_closed = c.a_half_closes }
  | shut ↦ record s { b_to_a = sent; done = s.done ++ b_to_a_outcome c ∷ [] }
  | sent ↦ s
]

abbrev pub copy_run : {E : Type 0} → Streams E → List Bool → CopyState E → CopyState E
copy_run c [] s = s
copy_run c (d ∷ ds) s = copy_run c ds (copy_step c d s)

-- What is received once both goroutines have sent; none before that.
unfoldable pub received : {E : Type 0} → CopyState E → Option (CopyResult E)
received s = elim s.done [
  | [] ↦ none
  | first ∷ rest ↦ elim rest [ [] ↦ none | second ∷ more ↦ some (collect first second) ]
]
