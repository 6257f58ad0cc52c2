-- ===== src/Nsm/Lines.antt =====
-- nsm.go: `readNsmLine`, over a `bufio.Reader` with its default buffer.
pub mod Slices
pub mod Whole
use argonaut.Text.Trim.{trim_right, is_break}
use argonaut.Prelude.{
  ℕ, zero, suc, ◌+◌, ◌^◌, Bool, true, false, ◌||◌, List, [], ◌∷◌, ◌++◌, Option, none, some, Bytes,
  length, ltb, ◌==◌, if◌then◌else◌,
}

abbrev pub nsm_line_max_size : ℕ
nsm_line_max_size = 2 ^ 20

-- the size of the buffer of `bufio.NewReader`
abbrev pub buffer_size : ℕ
buffer_size = 4096

-- What ends the input: `io.EOF`, or another error of the underlying reader.
pub data InputEnd : Type 0 where
  eof : InputEnd
  broken : Bytes → InputEnd

-- The unread input, whatever part of it is in the buffer.
pub record Reader : Type 0 where
  pub unread : Bytes
  pub input_end : InputEnd

pub data SliceError : Type 0 where
  buffer_full : SliceError
  ended : InputEnd → SliceError

-- How a search for a newline in the next bytes stops.
pub data Stop : Type 0 where
  newline full out_of_input : Stop

-- At most that many bytes, up to and with the first newline; and what is behind them.
unfoldable pub scan : ℕ → Bytes → (Bytes × Bytes) × Stop
scan zero s = (([], s), full)
scan (suc n) [] = (([], []), out_of_input)
scan (suc n) (c ∷ s) =
    let ((fragment, rest), stop) = scan n s in
    if c == b'\n' then ((c ∷ [], s), newline) else ((c ∷ fragment, rest), stop)

abbrev slice_error : Stop → InputEnd → Option SliceError
slice_error newline input_end = none
slice_error full input_end = some buffer_full
slice_error out_of_input input_end = some (ended input_end)

-- `reader.ReadSlice('\n')`: it fills the buffer until that holds a newline, is full, or the input
-- ends.
unfoldable pub read_slice : Reader → (Bytes × Option SliceError) × Reader
read_slice r =
    let ((fragment, rest), stop) = scan buffer_size r.unread in
    ((fragment, slice_error stop r.input_end), record r { unread = rest })

-- `nsmLineLooksJSON`, on the two parts one behind the other
unfoldable pub nsm_line_looks_json : Bytes → Bool
nsm_line_looks_json [] = false
nsm_line_looks_json (b ∷ s) =
    let rest = nsm_line_looks_json s in
    if b == b' ' || b == b'\t' || b == b'\r' || b == b'\n' then rest else b == b'{'

-- `discardNsmLineRemainder`; none is the fuel's end
unfoldable pub discard_nsm_line_remainder : ℕ → Option SliceError → Reader → Option Reader
discard_nsm_line_remainder fuel none r = some r
discard_nsm_line_remainder fuel (some (ended e)) r = some r
discard_nsm_line_remainder zero (some buffer_full) r = none
discard_nsm_line_remainder (suc fuel) (some buffer_full) r =
    let ((_, error), r') = read_slice r in discard_nsm_line_remainder fuel error r'

-- A line, or the error: `io.EOF`, the underlying reader's, or `nsmLineTooLargeError`.
pub data LineResult : Type 0 where
  line_read : Bytes → LineResult
  no_line : InputEnd → LineResult
  too_large : (json_like : Bool) → LineResult

-- the case `io.EOF` of the `switch err`
last_line : Bytes → LineResult
last_line [] = no_line eof
last_line (c ∷ s) = line_read (c ∷ s)

abbrev with_result : LineResult → Option Reader → Option (LineResult × Reader)
with_result l none = none
with_result l (some r) = some (l, r)

-- The loop of `readNsmLine`, from the line so far; none is the fuel's end.
unfoldable pub read_nsm_line : ℕ → Bytes → Reader → Option (LineResult × Reader)
unfolding last_line
read_nsm_line zero line r = none
read_nsm_line (suc fuel) line r =
    let ((fragment, error), r') = read_slice r in
    let line' = line ++ fragment in
    let again = read_nsm_line fuel line' r' in
    if ltb nsm_line_max_size (length line + length fragment)
    then with_result (too_large (nsm_line_looks_json (line ++ fragment)))
        (discard_nsm_line_remainder fuel error r')
    else elim error [
      | none ↦ some (line_read (trim_right is_break line'), r')
      | some e ↦ elim e [
        | buffer_full ↦ again
        | ended end_of ↦ elim end_of [
          | eof ↦ some (last_line line', r')
          | broken message ↦ some (no_line (broken message), r')
        ]
      ]
    ]
