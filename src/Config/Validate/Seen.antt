-- ===== src/Config/Validate/Seen.antt =====
-- config.go: the maps of `ValidateConfig` and the keys that they have seen.
use argonaut.Config.Validate.{ConfigError, seen_at, absent}
use argonaut.Prelude.{
  ℕ, ◌≡◌, ◌≢◌, ◌↔◌, inl, inr, refl, sym, Bool, true, List, [], ◌∷◌, Option, none, some, ok,
  Bool-cases, Distinct, All, All-map,
}

-- The keys are different from one another and from those seen before.
abbrev pub DistinctFrom {ℓ} : {K : Type ℓ} → List (K × ℕ) → List K → Type ℓ
DistinctFrom seen ks = All (λ k. All (λ p. p.0 ≢ k) seen) ks × Distinct ks

pub absent-eq-ok : (o : Option ℕ) (e : ℕ → ConfigError) → (absent o e ≡ ok tt) ↔ (o ≡ none)
unfolding absent
absent-eq-ok none e = (λ _. refl, λ _. refl)
absent-eq-ok (some i) e = (λ h. cc, λ h. cc)

module _ {ℓ} {K : Type ℓ} (beq : K → K → Bool)
    (beq_iff : (a b : K) → (beq a b ≡ true) ↔ (a ≡ b)) where
  pub seen_at-none :
      (k : K) (seen : List (K × ℕ)) → (seen_at beq k seen ≡ none) ↔ All (λ p. p.0 ≢ k) seen
  unfolding seen_at
  seen_at-none k [] = (λ _. tt, λ _. refl)
  seen_at-none k ((j, i) ∷ seen) = elim (Bool-cases (beq j k)) [
    | inl e ↦ (λ h. let h' = rw e at h in cc, λ h. absurd (h.0 ((beq_iff j k).0 e)))
    | inr e ↦ (
      λ h. (λ q. let f = (beq_iff j k).1 q in cc, (seen_at-none k seen).0 (rw e at h)),
      λ h. rw e ((seen_at-none k seen).1 h.1),
    )
  ]

-- Adding a key to those seen, and asking for it first, comes to the same.
pub DistinctFrom-cons {ℓ} :
    {K : Type ℓ} (k : K) (i : ℕ) (ks : List K) (seen : List (K × ℕ))
    → All (λ p. p.0 ≢ k) seen
    → DistinctFrom ((k, i) ∷ seen) ks
    → DistinctFrom seen (k ∷ ks)
DistinctFrom-cons k i ks seen h (new, dis) =
    ((h, All-map _ _ ks (λ x q. q.1) new), (All-map _ _ ks (λ x q e. q.0 (sym e)) new, dis))

All-both {ℓ κ} :
    {A : Type ℓ} (P Q : A → Type κ) (xs : List A) → All P xs → All Q xs → All (λ x. P x × Q x) xs
All-both P Q [] hp hq = tt
All-both P Q (x ∷ xs) (px, hp) (qx, hq) = ((px, qx), All-both P Q xs hp hq)

pub DistinctFrom-uncons {ℓ} :
    {K : Type ℓ} (k : K) (i : ℕ) (ks : List K) (seen : List (K × ℕ))
    → DistinctFrom seen (k ∷ ks)
    → All (λ p. p.0 ≢ k) seen × DistinctFrom ((k, i) ∷ seen) ks
DistinctFrom-uncons k i ks seen ((h, old), (lacks, dis)) =
    (h, (All-both _ _ ks (All-map _ _ ks (λ x q e. q (sym e)) lacks) old, dis))

pub DistinctFrom-nil {ℓ} : {K : Type ℓ} (ks : List K) → Distinct ks → DistinctFrom [] ks
DistinctFrom-nil {K} ks d = (none_seen ks, d)
  where
    none_seen : (ks : List K) → All {ℓ, ℓ} (λ k. Unit) ks
    none_seen [] = tt
    none_seen (k ∷ ks) = (tt, none_seen ks)
