-- ===== src/Text/Split.antt =====
-- `strings.Split` at a one-byte separator, and `strings.Fields`.
pub mod Words
use argonaut.Text.Trim.{space_width}
use argonaut.Prelude.{
  ℕ, zero, suc, ◌+◌, ◌≡◌, ◌≢◌, ◌↔◌, refl, sym, ap, ◌∙◌, Bool, true, false, ◌&&◌, ◌||◌, List, [],
  ◌∷◌, ◌++◌, append-nil, append_assoc, arith, ◌==◌, if◌then◌else◌, Bool-cases, Bytes, codes, Lacks,
  All, All-append, length, inl, inr,
}

cons_head : ℕ → List Bytes → List Bytes
cons_head c [] = (c ∷ []) ∷ []
cons_head c (p ∷ ps) = (c ∷ p) ∷ ps

-- `strings.Split(s, string(sep))`
unfoldable pub split : ℕ → Bytes → List Bytes
unfolding cons_head
split sep [] = [] ∷ []
split sep (c ∷ s) = let rest = split sep s in if c == sep then [] ∷ rest else cons_head c rest

-- The parts with the separator between them.
unfoldable pub join : ℕ → List Bytes → Bytes
join sep [] = []
join sep (p ∷ []) = p
join sep (p ∷ q ∷ ps) = p ++ sep ∷ join sep (q ∷ ps)

emit : Bytes → List Bytes → List Bytes
emit [] fs = fs
emit (c ∷ cur) fs = (c ∷ cur) ∷ fs

-- `skip` bytes of a white space rune are still to pass; `cur` is the field so far.
fields_from : ℕ → Bytes → Bytes → List Bytes
unfolding emit
fields_from skip cur [] = emit cur []
fields_from (suc skip) cur (c ∷ s) = fields_from skip cur s
fields_from zero cur (c ∷ s) = elim (space_width (c ∷ s)) [
  | zero ↦ fields_from zero (cur ++ c ∷ []) s
  | suc w ↦ emit cur (fields_from w [] s)
]

-- `strings.Fields`
unfoldable pub fields : Bytes → List Bytes
unfolding fields_from
fields = fields_from 0 []

module _ (sep : ℕ) where
  join-cons_head : (c : ℕ) (ps : List Bytes) → join sep (cons_head c ps) ≡ c ∷ join sep ps
  unfolding join cons_head
  join-cons_head c [] = refl
  join-cons_head c (p ∷ []) = refl
  join-cons_head c (p ∷ q ∷ ps) = refl

  cons_head-ne-nil : (c : ℕ) (ps : List Bytes) → cons_head c ps ≢ []
  unfolding cons_head
  cons_head-ne-nil c [] = cc
  cons_head-ne-nil c (p ∷ ps) = cc

  cons_head-Lacks :
      (c : ℕ) (ps : List Bytes) → c ≢ sep → All (Lacks sep) ps → All (Lacks sep) (cons_head c ps)
  unfolding cons_head
  cons_head-Lacks c [] hc h = ((hc, tt), tt)
  cons_head-Lacks c (p ∷ ps) hc (hp, hps) = ((hc, hp), hps)

  pub split-ne-nil : (s : Bytes) → split sep s ≢ []
  unfolding split
  split-ne-nil [] = cc
  split-ne-nil (c ∷ s) = ground (arith, cons_head-ne-nil c (split sep s))

  join-nil-cons : (ps : List Bytes) → ps ≢ [] → join sep ([] ∷ ps) ≡ sep ∷ join sep ps
  unfolding join
  join-nil-cons [] h = absurd (h refl)
  join-nil-cons (p ∷ ps) h = refl

  pub join-split : (s : Bytes) → join sep (split sep s) ≡ s
  unfolding split
  join-split [] = unfold join in refl
  join-split (c ∷ s) = elim (Bool-cases (c == sep)) [
    | inl e ↦ rw (e, join-nil-cons _ (split-ne-nil s), join-split s) (ground arith)
    | inr e ↦ rw (e, join-cons_head, join-split s)
  ]

  -- No part holds the separator.
  pub split-Lacks : (s : Bytes) → All (Lacks sep) (split sep s)
  unfolding split
  split-Lacks [] = (tt, tt)
  split-Lacks (c ∷ s) = elim (Bool-cases (c == sep)) [
    | inl e ↦ rw e (tt, split-Lacks s)
    | inr e ↦ rw e (cons_head-Lacks c _ (ground arith) (split-Lacks s))
  ]

  split_of_Lacks : (p : Bytes) → Lacks sep p → split sep p ≡ p ∷ []
  unfolding split
  split_of_Lacks [] h = refl
  split_of_Lacks (c ∷ p) (hc, hp) = rw (split_of_Lacks p hp) (ground arith)

  pub split-append : (p s : Bytes) → Lacks sep p → split sep (p ++ sep ∷ s) ≡ p ∷ split sep s
  unfolding split
  split-append [] s h = ground arith
  split-append (c ∷ p) s (hc, hp) = rw (split-append p s hp) (ground arith)

  -- Parts without the separator are read back.
  pub split-join : (ps : List Bytes) → ps ≢ [] → All (Lacks sep) ps → split sep (join sep ps) ≡ ps
  unfolding join
  split-join [] h _ = absurd (h refl)
  split-join (p ∷ []) h (hp, _) = split_of_Lacks p hp
  split-join (p ∷ q ∷ ps) h (hp, hps) = rw (split-append p _ hp) (rw (split-join (q ∷ ps) (cc) hps))

module _ (P : ℕ → Type 0) where
  cons_head-All : (c : ℕ) (ps : List Bytes) → P c → All (All P) ps → All (All P) (cons_head c ps)
  unfolding cons_head
  cons_head-All c [] hc h = ((hc, tt), tt)
  cons_head-All c (p ∷ ps) hc (hp, hps) = ((hc, hp), hps)

  pub split-All : (sep : ℕ) (s : Bytes) → All P s → All (All P) (split sep s)
  unfolding split
  split-All sep [] h = (tt, tt)
  split-All sep (c ∷ s) (hc, hs) = elim (Bool-cases (c == sep)) [
    | inl e ↦ rw e (tt, split-All sep s hs)
    | inr e ↦ rw e (cons_head-All c _ hc (split-All sep s hs))
  ]

  pub join-All : (sep : ℕ) (ps : List Bytes) → P sep → All (All P) ps → All P (join sep ps)
  unfolding join
  join-All sep [] hs h = tt
  join-All sep (p ∷ []) hs (hp, _) = hp
  join-All sep (p ∷ q ∷ ps) hs (hp, hps) =
      All-append P p (sep ∷ join sep (q ∷ ps)) hp (hs, join-All sep (q ∷ ps) hs hps)
