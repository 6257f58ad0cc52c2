-- ===== src/Nsm/Lines/Whole.antt =====
-- nsm.go: `readNsmLine` against the whole line.
use argonaut.Nsm.Lines.Slices.{cut_line, prepend, IsSlice, scan-IsSlice, rest_of, discard-rest}
use argonaut.Nsm.Lines.{
  Reader, Stop, newline, full, out_of_input, scan, read_slice, discard_nsm_line_remainder,
  buffer_size, InputEnd, eof, broken, nsm_line_max_size, nsm_line_looks_json, LineResult, line_read,
  no_line, too_large, last_line, read_nsm_line,
}
use argonaut.Text.Trim.{trim_right, is_break}
use argonaut.Prelude.{
  ℕ, zero, suc, ◌+◌, ◌≤◌, ◌<◌, ◌≡◌, ◌⊎◌, refl, ◌∙◌, inl, inr, Bool, true, false, [], ◌∷◌, ◌++◌,
  some, Bytes, length, length-append, ltb, arith, Bool-cases, append_assoc, append-nil,
}

-- What is returned for a line that is not too large: one with its newline, which is trimmed, or
-- what the input ends with.
abbrev pub result_of : Bool → InputEnd → Bytes → LineResult
result_of true _ whole = line_read (trim_right is_break whole)
result_of false eof [] = no_line eof
result_of false eof (c ∷ s) = line_read (c ∷ s)
result_of false (broken message) _ = no_line (broken message)

-- The reader is left behind the line; a line of at most 2^20 bytes is returned whole, and for a
-- longer one it is told whether it begins like JSON, from a part that is longer than 2^20 bytes.
pub record IsRead (before : Bytes) (input_end : InputEnd) (cut : (Bytes × Bytes) × Bool)
    (out : LineResult × Reader) : Type 0 where
  pub behind : out.1 ≡ record { unread = cut.0.1; input_end = input_end }
  pub whole :
      length (before ++ cut.0.0) ≤ nsm_line_max_size
      → out.0 ≡ result_of cut.1 input_end (before ++ cut.0.0)
  pub large :
      nsm_line_max_size < length (before ++ cut.0.0)
      → (part more : Bytes) × (part ++ more ≡ before ++ cut.0.0)
        × (nsm_line_max_size < length part)
        × (out.0 ≡ too_large (nsm_line_looks_json part))

last_line_lem : (whole : Bytes) → last_line whole ≡ result_of false eof whole
unfolding last_line
last_line_lem [] = refl
last_line_lem (c ∷ s) = refl

-- The line is too large as soon as a part of it is.
large-IsRead :
    (before f more rest : Bytes) (found : Bool) (e : InputEnd)
    → nsm_line_max_size < length before + length f
    → IsRead before e
        ((f ++ more, rest), found)
        (too_large (nsm_line_looks_json (before ++ f)), record { unread = rest; input_end = e })
large-IsRead before f more rest found e h =
    let size = length-append before f in
    let longer = length-append f more in
    let all = length-append before (f ++ more) in
    record {
      behind = refl;
      whole = λ k. absurd (omega (arith, all, longer, h, k));
      large = λ k. (before ++ f, more, append_assoc before f more, omega (arith, size, h), refl);
    }

whole-IsRead :
    (before f rest : Bytes) (found : Bool) (e : InputEnd)
    → nsm_line_max_size < length before + length f
    → IsRead before e
        ((f, rest), found)
        (too_large (nsm_line_looks_json (before ++ f)), record { unread = rest; input_end = e })
whole-IsRead before f rest found e h =
    let size = length-append before f in
    record {
      behind = refl;
      whole = λ k. absurd (omega (arith, size, h, k));
      large = λ k. (before ++ f, [], append-nil (before ++ f), omega (arith, size, h), refl);
    }

-- The slice ends the line, which is not too large.
small-IsRead :
    (before f rest : Bytes) (found : Bool) (e : InputEnd)
    → length before + length f ≤ nsm_line_max_size
    → IsRead before e
        ((f, rest), found)
        (result_of found e (before ++ f), record { unread = rest; input_end = e })
small-IsRead before f rest found e h =
    let size = length-append before f in
    record { behind = refl; whole = λ k. refl; large = λ k. absurd (omega (arith, size, h, k)) }

-- The slice was put behind the line so far.
next-IsRead :
    (before f : Bytes) (e : InputEnd) (cut : (Bytes × Bytes) × Bool) (out : LineResult × Reader)
    → IsRead (before ++ f) e cut out
    → IsRead before e (prepend f cut) out
next-IsRead before f e ((l, rest), found) out v =
    let same : (before ++ f) ++ l ≡ before ++ (f ++ l) = append_assoc before f l in
    record {
      behind = v.behind;
      whole = λ k. rw same at (v.whole (rw same k));
      large = λ k.
          let (part, more, e, size, r) = v.large (rw same k) in (part, more, e ∙ same, size, r);
    }

abbrev Reads : ℕ → Bytes → Reader → Type 0
Reads fuel before r =
    (out : LineResult × Reader) × (read_nsm_line fuel before r ≡ some out)
    × IsRead before r.input_end (cut_line r.unread) out

-- A turn of the loop that ends in an error of a line that is too large.
too_large-Reads :
    (fuel : ℕ) (before : Bytes) (r : Reader) (out : (Bytes × Bytes) × Stop)
    → scan buffer_size r.unread ≡ out
    → IsSlice buffer_size r.unread out
    → length r.unread < suc fuel
    → nsm_line_max_size < length before + length out.0.0
    → Reads (suc fuel) before r
unfolding read_nsm_line read_slice discard_nsm_line_remainder
too_large-Reads fuel before r ((f, rest), newline) e v h large =
    let test : ltb nsm_line_max_size (length before + length f) ≡ true = ground arith in
    (
      (too_large (nsm_line_looks_json (before ++ f)), record r { unread = rest }),
      rw (e, read_nsm_line, read_slice) (rw (e, test)),
      rw v (whole-IsRead before f rest true r.input_end large),
    )
too_large-Reads fuel before r ((f, rest), full) e (cut, size, _) h large =
    let test : ltb nsm_line_max_size (length before + length f) ≡ true = ground arith in
    let next : Reader = record r { unread = rest } in
    let skip = discard-rest fuel next (omega (arith, size, h)) in
    (
      (too_large (nsm_line_looks_json (before ++ f)), record r { unread = rest_of rest }),
      rw (e, read_nsm_line, read_slice) (rw (e, test, skip)),
      rw cut (
          large-IsRead before f (cut_line rest).0.0 (rest_of rest) (cut_line rest).1 r.input_end
            large),
    )
too_large-Reads fuel before r ((f, rest), out_of_input) e (cut, no_rest) h large =
    let test : ltb nsm_line_max_size (length before + length f) ≡ true = ground arith in
    (
      (too_large (nsm_line_looks_json (before ++ f)), record r { unread = rest }),
      rw (e, read_nsm_line, read_slice) (rw test),
      rw (cut, no_rest) (whole-IsRead before f [] false r.input_end large),
    )

InputEnd-cases : (e : InputEnd) → (e ≡ eof) ⊎ ((message : Bytes) × (e ≡ broken message))
InputEnd-cases eof = inl refl
InputEnd-cases (broken message) = inr (message, refl)

small-Reads :
    (fuel : ℕ) (before : Bytes) (r : Reader) (out : (Bytes × Bytes) × Stop)
    → scan buffer_size r.unread ≡ out
    → IsSlice buffer_size r.unread out
    → length r.unread < suc fuel
    → length before + length out.0.0 ≤ nsm_line_max_size
    → ((line : Bytes) (next : Reader) → length next.unread < fuel → Reads fuel line next)
    → Reads (suc fuel) before r
unfolding read_nsm_line read_slice
small-Reads fuel before r ((f, rest), newline) e v h small again =
    let test : ltb nsm_line_max_size (length before + length f) ≡ false = ground arith in
    (
      (line_read (trim_right is_break (before ++ f)), record r { unread = rest }),
      rw (e, read_nsm_line, read_slice) (rw (e, test)),
      rw v (small-IsRead before f rest true r.input_end small),
    )
small-Reads fuel before r ((f, rest), full) e (cut, size, _) h small again =
    let test : ltb nsm_line_max_size (length before + length f) ≡ false = ground arith in
    let (out, same, v) =
      again (before ++ f) (record r { unread = rest }) (omega (arith, size, h)) in
    (
      out,
      rw (e, read_nsm_line, read_slice) (rw (e, test) same),
      rw cut (next-IsRead before f r.input_end (cut_line rest) out v),
    )
small-Reads fuel before r ((f, rest), out_of_input) e (cut, no_rest) h small again =
    let test : ltb nsm_line_max_size (length before + length f) ≡ false = ground arith in
    (
      (result_of false r.input_end (before ++ f), record r { unread = rest }),
      elim (InputEnd-cases r.input_end) [
        | inl i ↦
            rw (e, read_nsm_line, read_slice)
              (rw test (rw (i, e) (rw (i, last_line_lem (before ++ f)))))
        | inr (message, i) ↦ rw (e, read_nsm_line, read_slice) (rw test (rw (i, e) (rw i)))
      ],
      rw (cut, no_rest) (small-IsRead before f [] false r.input_end small),
    )

reads : (fuel : ℕ) (before : Bytes) (r : Reader) → length r.unread < fuel → Reads fuel before r
reads zero before r h = absurd (omega (arith, h))
reads (suc fuel) before r h =
    elim (Bool-cases
      (ltb nsm_line_max_size (length before + length (scan buffer_size r.unread).0.0))) [
        | inl t ↦
            too_large-Reads fuel before r (scan buffer_size r.unread) refl
              (scan-IsSlice buffer_size r.unread) h (ground arith)
        | inr t ↦
            small-Reads fuel before r (scan buffer_size r.unread) refl
              (scan-IsSlice buffer_size r.unread) h (ground arith)
              (λ line next. reads fuel line next)
      ]

-- With more fuel than there is input, `readNsmLine` returns, and leaves the reader behind the whole
-- line; a line of at most 2^20 bytes with its newline is returned trimmed, one that the end of the
-- input cuts short as it is, and for a longer line the error says whether a part of it, longer than
-- 2^20 bytes, begins like JSON.
pub read_nsm_line-IsRead :
    (fuel : ℕ) (r : Reader)
    → length r.unread < fuel
    → (out : LineResult × Reader) × (read_nsm_line fuel [] r ≡ some out)
      × IsRead [] r.input_end (cut_line r.unread) out
read_nsm_line-IsRead fuel r h = reads fuel [] r h
