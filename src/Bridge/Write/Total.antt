-- ===== src/Bridge/Write/Total.antt =====
-- main.go: how `writeAll` ends, for a writer that keeps to what `io.Writer` documents.
use argonaut.Bridge.Write.{WriteError, failed, short, slice, Writer, write_all}
use argonaut.Prelude.{
  ℕ, zero, suc, ◌+◌, ◌-◌, ◌≤◌, ◌≡◌, ◌≢◌, refl, sym, ap, ◌∙◌, inl, inr, false, [], ◌∷◌, ◌++◌,
  append_assoc, append-nil, Option, none, some, Bytes, length, take, drop, take-length, ltb, ◌==◌,
  arith, Bool-cases, Option-cases,
}

length-drop : (n : ℕ) (s : Bytes) → length (drop n s) ≡ length s - n
length-drop zero s = omega arith
length-drop (suc n) [] = omega arith
length-drop (suc n) (c ∷ s) = omega (arith, length-drop n s)

take-nil : (n : ℕ) → take {A = ℕ} n [] ≡ []
take-nil zero = refl
take-nil (suc n) = refl

take-drop : (n k : ℕ) (s : Bytes) → take (n + k) s ≡ take n s ++ take k (drop n s)
take-drop zero k s = ap (λ m. take m s) (omega arith)
take-drop (suc n) k [] = take-nil (suc n + k) ∙ sym (take-nil k)
take-drop (suc n) k (c ∷ s) =
    let e : suc n + k ≡ suc (n + k) = omega arith in rw e (ap (◌∷◌ c) (take-drop n k s))

-- What `io.Writer` documents, for a view of what the writer has taken so far: `Write` takes the
-- first n bytes, and n is at most the length.
pub record IsWriter {E W : Type 0} (io : Writer E W) (taken : W → Bytes) : Type 0 where
  pub takes :
      (w : W) (buf : Bytes) → taken (io.write w buf).1 ≡ taken w ++ take (io.write w buf).0.0 buf
  pub bound : (w : W) (buf : Bytes) → (io.write w buf).0.0 ≤ length buf

-- A prefix of the data was taken: all of it where there is no error.
pub record IsWritten {E W : Type 0} (taken : W → Bytes) (w : W) (buf : Bytes)
    (out : W × Option (WriteError E)) : Type 0 where
  pub count : ℕ
  pub size : count ≤ length buf
  pub written : taken out.0 ≡ taken w ++ take count buf
  pub complete : out.1 ≡ none → count ≡ length buf
  pub no_panic : out.1 ≢ some slice

module _ {E W : Type 0} (io : Writer E W) (taken : W → Bytes) (k : IsWriter io taken) where
  stops :
      (w : W) (buf : Bytes) (e : WriteError E)
      → e ≢ slice
      → IsWritten taken w buf ((io.write w buf).1, some e)
  stops w buf e h = record {
    count = (io.write w buf).0.0;
    size = k.bound w buf;
    written = k.takes w buf;
    complete = λ no. cc;
    no_panic = λ same. h (let f : e ≡ slice = cc in f);
  }

  continues :
      (w : W) (buf : Bytes) (out : W × Option (WriteError E))
      → IsWritten taken (io.write w buf).1 (drop (io.write w buf).0.0 buf) out
      → IsWritten taken w buf out
  continues w buf out v =
      let n = (io.write w buf).0.0 in
      let size = length-drop n buf in
      record {
        count = n + v.count;
        size = omega (arith, k.bound w buf, v.size, size);
        written =
            v.written
            ∙ ap (λ t. t ++ take v.count (drop n buf)) (k.takes w buf)
            ∙ append_assoc (taken w) (take n buf) (take v.count (drop n buf))
            ∙ ap (λ t. taken w ++ t) (sym (take-drop n v.count buf));
        complete = λ e. omega (arith, k.bound w buf, v.complete e, size);
        no_panic = v.no_panic;
      }

  abbrev Ends : ℕ → W → Bytes → Type 0
  Ends fuel w buf =
      (out : W × Option (WriteError E)) × (write_all io fuel w buf ≡ some out)
      × IsWritten taken w buf out

  -- One turn of the loop, by what `Write` returns.
  turn-Ends :
      (fuel : ℕ) (w : W) (c : ℕ) (s : Bytes)
      → length s ≤ fuel
      → ((w : W) (buf : Bytes) → length buf ≤ fuel → Ends fuel w buf)
      → Ends (suc fuel) w (c ∷ s)
  unfolding write_all
  turn-Ends fuel w c s h again = elim (Option-cases (io.write w (c ∷ s)).0.1) [
    | inr (e, same) ↦
        ((w', some (failed e)), rw (same, write_all), stops w (c ∷ s) (failed e) (λ no. cc))
    | inl same ↦ elim (Bool-cases (n == 0)) [
      | inl z ↦ ((w', some short), rw (same, write_all) (rw z), stops w (c ∷ s) short (λ no. cc))
      | inr z ↦
          let bound = k.bound w (c ∷ s) in
          let fits : ltb (length (c ∷ s)) n ≡ false = ground arith in
          let (out, e, v) = again w' (drop n (c ∷ s)) (ground (arith, length-drop n (c ∷ s))) in
          (out, rw (same, write_all) (rw (z, fits) e), continues w (c ∷ s) out v)
    ]
  ]
    where
      n : ℕ
      n = (io.write w (c ∷ s)).0.0

      w' : W
      w' = (io.write w (c ∷ s)).1

  -- For a writer that keeps to what `io.Writer` documents, with as much fuel as the data has bytes,
  -- the loop ends: it has written all of the data, or it reports an error and has written a prefix,
  -- and it never slices out of range.
  pub write_all-IsWritten :
      (fuel : ℕ) (w : W) (buf : Bytes)
      → length buf ≤ fuel
      → (out : W × Option (WriteError E)) × (write_all io fuel w buf ≡ some out)
        × IsWritten taken w buf out
  unfolding write_all
  write_all-IsWritten fuel w [] h = (
    (w, none),
    refl,
    record {
      count = 0;
      size = omega arith;
      written = sym (append-nil (taken w));
      complete = λ e. refl;
      no_panic = λ e. cc;
    },
  )
  write_all-IsWritten zero w (c ∷ s) h = absurd (omega (arith, h))
  write_all-IsWritten (suc fuel) w (c ∷ s) h =
      turn-Ends fuel w c s (omega (arith, h)) (λ w buf. write_all-IsWritten fuel w buf)

  -- A writer that takes something of all data, and reports no error.
  abbrev pub IsWilling : Type 0
  IsWilling =
      (w : W) (c : ℕ) (s : Bytes)
      → ((io.write w (c ∷ s)).0.1 ≡ none) × (1 ≤ (io.write w (c ∷ s)).0.0)

  -- Such a writer is given all of the data.
  write_all-succeeds :
      (fuel : ℕ) (w : W) (buf : Bytes)
      → IsWilling
      → length buf ≤ fuel
      → (w' : W) × (write_all io fuel w buf ≡ some (w', none))
  unfolding write_all
  write_all-succeeds fuel w [] willing h = (w, refl)
  write_all-succeeds zero w (c ∷ s) willing h = absurd (omega (arith, h))
  write_all-succeeds (suc fuel) w (c ∷ s) willing h =
      let n : ℕ = (io.write w (c ∷ s)).0.0 in
      let (fine, some_taken) = willing w c s in
      let bound = k.bound w (c ∷ s) in
      let positive : (n == 0) ≡ false = ground (arith, some_taken) in
      let fits : ltb (length (c ∷ s)) n ≡ false = ground (arith, bound) in
      let (w', e) =
        write_all-succeeds fuel (io.write w (c ∷ s)).1 (drop n (c ∷ s)) willing
          (omega (arith, length-drop n (c ∷ s), h, some_taken)) in
      (w', rw (fine, write_all) (rw (positive, fits) e))

  pub write_all-Willing :
      (w : W) (buf : Bytes)
      → IsWilling
      → (w' : W) × (write_all io (length buf) w buf ≡ some (w', none)) × (taken w' ≡ taken w ++ buf)
  write_all-Willing w buf willing =
      let (w', e) = write_all-succeeds (length buf) w buf willing (omega arith) in
      let (out, same, v) = write_all-IsWritten (length buf) w buf (omega arith) in
      let whole : out ≡ (w', none) = cc in
      (
        w',
        e,
        ap (λ o. taken o.0) (sym whole)
            ∙ v.written
            ∙ ap (λ n. taken w ++ take n buf) (v.complete (ap (λ o. o.1) whole))
            ∙ ap (λ t. taken w ++ t) (take-length buf),
      )
