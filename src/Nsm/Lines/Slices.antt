-- ===== src/Nsm/Lines/Slices.antt =====
-- The slices that the reader returns, against the whole line.
use argonaut.Nsm.Lines.{
  Reader, Stop, newline, full, out_of_input, scan, buffer_full, read_slice,
  discard_nsm_line_remainder, buffer_size,
}
use argonaut.Prelude.{
  ℕ, zero, suc, ◌+◌, ◌<◌, ◌≡◌, refl, ap, inl, inr, Bool, true, false, [], ◌∷◌, ◌++◌, some, Bytes,
  length, ◌==◌, arith, if◌then◌else◌, Bool-cases,
}

-- The whole next line: what stands up to and with the first newline, what is behind it, and
-- whether there is a newline.
unfoldable pub cut_line : Bytes → (Bytes × Bytes) × Bool
cut_line [] = (([], []), false)
cut_line (c ∷ s) =
    let ((line, rest), found) = cut_line s in
    if c == b'\n' then ((c ∷ [], s), true) else ((c ∷ line, rest), found)

abbrev pub prepend : Bytes → (Bytes × Bytes) × Bool → (Bytes × Bytes) × Bool
prepend f ((line, rest), found) = ((f ++ line, rest), found)

-- What a slice tells of the line at the head of the input.
abbrev pub IsSlice : ℕ → Bytes → (Bytes × Bytes) × Stop → Type 0
IsSlice n s ((f, rest), newline) = cut_line s ≡ ((f, rest), true)
IsSlice n s ((f, rest), full) =
    (cut_line s ≡ prepend f (cut_line rest)) × (length s ≡ n + length rest) × (length f ≡ n)
IsSlice n s ((f, rest), out_of_input) = (cut_line s ≡ ((f, []), false)) × (rest ≡ [])

abbrev push : ℕ → (Bytes × Bytes) × Stop → (Bytes × Bytes) × Stop
push c ((f, rest), stop) = ((c ∷ f, rest), stop)

push-IsSlice :
    (n c : ℕ) (s : Bytes) (out : (Bytes × Bytes) × Stop)
    → (c == b'\n') ≡ false
    → IsSlice n s out
    → IsSlice (suc n) (c ∷ s) (push c out)
unfolding cut_line
push-IsSlice n c s ((f, rest), newline) e h = rw (e, h)
push-IsSlice n c s ((f, rest), full) e (h, k, l) = (rw (e, h), omega (arith, k), omega (arith, l))
push-IsSlice n c s ((f, rest), out_of_input) e (h, k) = (rw (e, h), k)

pub scan-IsSlice : (n : ℕ) (s : Bytes) → IsSlice n s (scan n s)
unfolding scan cut_line
scan-IsSlice zero s = (refl, omega arith, refl)
scan-IsSlice (suc n) [] = (refl, refl)
scan-IsSlice (suc n) (c ∷ s) = elim (Bool-cases (c == b'\n')) [
  | inl e ↦ rw e (rw e)
  | inr e ↦ rw e (push-IsSlice n c s (scan n s) e (scan-IsSlice n s))
]

abbrev pub rest_of : Bytes → Bytes
rest_of s = (cut_line s).0.1

-- By the slice that `ReadSlice` returns.
discard-turn :
    (fuel : ℕ) (r : Reader) (out : (Bytes × Bytes) × Stop)
    → scan buffer_size r.unread ≡ out
    → IsSlice buffer_size r.unread out
    → length r.unread < suc fuel
    → ((next : Reader)
        → length next.unread < fuel
        → discard_nsm_line_remainder fuel (some buffer_full) next
          ≡ some (record next { unread = rest_of next.unread }))
    → discard_nsm_line_remainder (suc fuel) (some buffer_full) r
      ≡ some (record r { unread = rest_of r.unread })
unfolding discard_nsm_line_remainder read_slice
discard-turn fuel r ((f, rest), newline) e v h again =
    let same : rest_of r.unread ≡ rest = ap (λ c. c.0.1) v in
    rw (e, discard_nsm_line_remainder, read_slice, same)
discard-turn fuel r ((f, rest), full) e (cut, size, _) h again =
    let same : rest_of r.unread ≡ rest_of rest = ap (λ c. c.0.1) cut in
    rw (e, discard_nsm_line_remainder, read_slice, same)
      (again (record r { unread = rest }) (omega (arith, size, h)))
discard-turn fuel r ((f, rest), out_of_input) e (cut, none_left) h again =
    let same : rest_of r.unread ≡ [] = ap (λ c. c.0.1) cut in
    rw (e, discard_nsm_line_remainder, read_slice, same, none_left)

-- The rest of a line that is too large is skipped, up to and with its newline.
pub discard-rest :
    (fuel : ℕ) (r : Reader)
    → length r.unread < fuel
    → discard_nsm_line_remainder fuel (some buffer_full) r
      ≡ some (record r { unread = rest_of r.unread })
discard-rest zero r h = absurd (omega (arith, h))
discard-rest (suc fuel) r h =
    discard-turn fuel r (scan buffer_size r.unread) refl (scan-IsSlice buffer_size r.unread) h
      (discard-rest fuel)
