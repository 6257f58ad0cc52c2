-- ===== src/Bridge/Accept/Removal.antt =====
-- Taking one goroutine from the list of the active ones.
use argonaut.Bridge.Accept.{remove_at}
use argonaut.Prelude.{
  ℕ, zero, suc, ◌<◌, ◌≡◌, refl, inl, inr, List, [], ◌∷◌, some, Option-cases, length, All, arith,
}

-- The first list is the second with an element put in.
pub data Inserts {ℓ} {A : Type ℓ} (x : A) : List A → List A → Type ℓ where
  here : {xs : List A} → Inserts x (x ∷ xs) xs
  there : {y : A} {ys zs : List A} → Inserts x ys zs → Inserts x (y ∷ ys) (y ∷ zs)

module _ {ℓ} {A : Type ℓ} where
  pub remove_at-Inserts :
      (i : ℕ) (xs : List A) (x : A) (ys : List A) → remove_at i xs ≡ some (x, ys) → Inserts x xs ys
  unfolding remove_at
  remove_at-Inserts i [] x ys h = cc
  remove_at-Inserts zero (y ∷ xs) x ys h =
      let e : y ≡ x = cc h in let f : xs ≡ ys = cc h in rw (e, f) here
  remove_at-Inserts (suc i) (y ∷ xs) x ys h = elim (Option-cases (remove_at i xs)) [
    | inl e ↦ let h' = rw (e, remove_at) at h in cc
    | inr ((z, zs), e) ↦
        let h' : some (z, y ∷ zs) ≡ some (x, ys) = rw e at h in
        let f : z ≡ x = cc h' in
        let g : y ∷ zs ≡ ys = cc h' in rw (← f, ← g) (there (remove_at-Inserts i xs z zs e))
  ]

  pub remove_at-lt :
      (i : ℕ) (xs : List A) → i < length xs → (r : A × List A) × (remove_at i xs ≡ some r)
  unfolding remove_at
  remove_at-lt i [] h = absurd (let no : i < 0 = h in omega (arith, no))
  remove_at-lt zero (y ∷ xs) h = ((y, xs), refl)
  remove_at-lt (suc i) (y ∷ xs) h =
      let (r, e) = remove_at-lt i xs (omega (arith, h)) in ((r.0, y ∷ r.1), rw e)

  pub Inserts-length : {x : A} {xs ys : List A} → Inserts x xs ys → length xs ≡ suc (length ys)
  Inserts-length here = refl
  Inserts-length (there h) = omega (arith, Inserts-length h)

  pub Inserts-All {κ} :
      (P : A → Type κ) {x : A} {xs ys : List A} → Inserts x xs ys → All P xs → All P ys
  Inserts-All P here (_, ps) = ps
  Inserts-All P (there h) (p, ps) = (p, Inserts-All P h ps)
