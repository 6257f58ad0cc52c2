-- ===== src/Prelude/Keys.antt =====
-- Lists without repetition under a map, and texts cut at a separator.
use mathlib.Core.Path.{◌≡◌, refl, ap}
use mathlib.Core.List.{List, [], ◌∷◌, ◌++◌, map}
use argonaut.Prelude.Lists.{All, Lacks, Distinct}

pub Lacks-of_map {ℓ κ} :
    {A : Type ℓ} {B : Type κ} (f : A → B) (x : A) (xs : List A)
    → Lacks (f x) (map f xs)
    → Lacks x xs
Lacks-of_map f x [] h = tt
Lacks-of_map f x (y ∷ xs) (hy, hs) = (λ e. hy (ap f e), Lacks-of_map f x xs hs)

pub Distinct-of_map {ℓ κ} :
    {A : Type ℓ} {B : Type κ} (f : A → B) (xs : List A) → Distinct (map f xs) → Distinct xs
Distinct-of_map f [] h = tt
Distinct-of_map f (x ∷ xs) (hx, hs) = (Lacks-of_map f x xs hx, Distinct-of_map f xs hs)

module _ {ℓ κ ι} {A : Type ℓ} {B : Type κ} (f : A → B) (P : A → Type ι)
    (inj : (x y : A) → P x → P y → f x ≡ f y → x ≡ y) where
  pub Lacks-map : (x : A) (xs : List A) → P x → All P xs → Lacks x xs → Lacks (f x) (map f xs)
  Lacks-map x [] px ps h = tt
  Lacks-map x (y ∷ xs) px (py, ps) (hy, hs) = (λ e. hy (inj y x py px e), Lacks-map x xs px ps hs)

  pub Distinct-map : (xs : List A) → All P xs → Distinct xs → Distinct (map f xs)
  Distinct-map [] ps h = tt
  Distinct-map (x ∷ xs) (px, ps) (hx, hs) = (Lacks-map x xs px ps hx, Distinct-map xs ps hs)

-- What stands before and behind the first separator is determined.
pub cut_at {ℓ} :
    {A : Type ℓ} (c : A) (xs ys : List A) {us vs : List A}
    → Lacks c xs
    → Lacks c ys
    → xs ++ c ∷ us ≡ ys ++ c ∷ vs
    → (xs ≡ ys) × (us ≡ vs)
cut_at c [] [] hx hy h = (refl, cc)
cut_at c [] (y ∷ ys) hx (hy, _) h = absurd (hy (cc))
cut_at c (x ∷ xs) [] (hx, _) hy h = absurd (hx (cc))
cut_at c (x ∷ xs) (y ∷ ys) {us} {vs} (_, hx) (_, hy) h =
    let same : x ≡ y = cc in
    let (front, back) = cut_at c xs ys {us = us} {vs = vs} hx hy (cc) in (cc, back)
