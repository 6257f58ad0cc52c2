-- ===== src/Bridge/Write.antt =====
-- main.go: `writeAll`, over any `io.Writer`.
pub mod Total
use argonaut.Prelude.{
  ℕ, zero, suc, ◌+◌, ◌≤◌, ◌<◌, ◌≡◌, refl, sym, ap, ◌∙◌, ◌⊎◌, inl, inr, true, false, List, [], ◌∷◌,
  ◌++◌, append_assoc, append-nil, Option, none, some, Bytes, length, take, drop, ltb, ◌==◌, arith,
  if◌then◌else◌, Bool-cases, Option-cases,
}

-- `err` is the writer's; `short` is `io.ErrShortWrite`; `slice` is the panic of `data[n:]` where
-- the writer reports more bytes than it was given.
pub data WriteError (E : Type 0) : Type 0 where
  failed : E → WriteError E
  short slice : WriteError E

-- `w.Write(data)`: the count and the error, and the writer's next state.
pub record Writer (E W : Type 0) : Type 0 where
  pub write : W → Bytes → (ℕ × Option E) × W

module _ {E W : Type 0} (io : Writer E W) where
  -- The loop; none is only the fuel's end.
  unfoldable pub write_all : ℕ → W → Bytes → Option (W × Option (WriteError E))
  write_all fuel w [] = some (w, none)
  write_all zero w (c ∷ buf) = none
  write_all (suc fuel) w (c ∷ buf) =
      let ((n, error), w') = io.write w (c ∷ buf) in
      let rest = write_all fuel w' (drop n (c ∷ buf)) in
      elim error [
        | some e ↦ some (w', some (failed e))
        | none ↦
            if n == 0
            then some (w', some short)
            else if ltb (length (c ∷ buf)) n
            then some (w', some slice)
            else rest
      ]
