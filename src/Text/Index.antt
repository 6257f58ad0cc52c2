-- ===== src/Text/Index.antt =====
-- `strings.HasPrefix` and `strings.Index`.
use mathlib.Core.Option
use argonaut.Prelude.{
  ℕ, zero, suc, ◌+◌, ◌≤◌, ◌≡◌, refl, Bool, true, false, ◌&&◌, Option, none, some, [], ◌∷◌, ◌++◌,
  arith, ◌==◌, if◌then◌else◌, Bytes, Lacks, length,
}

unfoldable pub has_prefix : Bytes → Bytes → Bool
has_prefix s [] = true
has_prefix [] (p ∷ ps) = false
has_prefix (c ∷ s) (p ∷ ps) = c == p && has_prefix s ps

unfoldable pub index : Bytes → Bytes → Option ℕ
unfolding has_prefix
index [] m = if has_prefix [] m then some 0 else none
index (c ∷ s) m = if has_prefix (c ∷ s) m then some 0 else Option.map suc (index s m)

-- The text holds no copy of `m`.
abbrev pub Omits : Bytes → Bytes → Type 0
Omits m s = index s m ≡ none

pub has_prefix-append : (p s : Bytes) → has_prefix (p ++ s) p ≡ true
unfolding has_prefix
has_prefix-append [] s = refl
has_prefix-append (c ∷ p) s = ground (arith, has_prefix-append p s)

-- A word with no `b` cannot reach across a `b`.
has_prefix-stop : (b : ℕ) (s t m : Bytes) → Lacks b m → has_prefix (s ++ b ∷ t) m ≡ has_prefix s m
unfolding has_prefix
has_prefix-stop b s t [] h = refl
has_prefix-stop b [] t (c ∷ m) h = ground arith
has_prefix-stop b (x ∷ s) t (c ∷ m) (hc, hm) = ground (arith, has_prefix-stop b s t m hm)

pub index-append_self : (m s : Bytes) → index (m ++ s) m ≡ some 0
unfolding index
index-append_self [] [] = refl
index-append_self [] (c ∷ s) = refl
index-append_self (c ∷ m) s = rw (has_prefix-append (c ∷ m) s)

-- The search for a word with no `b` passes over a stretch that ends in `b` and omits the word.
pub index-stop :
    (b : ℕ) (s t m : Bytes)
    → Lacks b m
    → Omits m s
    → index (s ++ b ∷ t) m ≡ Option.map (λ n. suc (length s) + n) (index t m)
unfolding index
index-stop b [] t [] hm h = cc
index-stop b [] t (c ∷ m) hm h = ground arith
index-stop b (x ∷ s) t m hm h =
    ground (arith, has_prefix-stop b (x ∷ s) t m hm, index-stop b s t m hm)

pub has_prefix-left : (s t m : Bytes) → has_prefix s m ≡ true → has_prefix (s ++ t) m ≡ true
unfolding has_prefix
has_prefix-left [] [] m h = h
has_prefix-left [] (c ∷ t) [] h = refl
has_prefix-left [] (c ∷ t) (d ∷ m) h = cc
has_prefix-left (x ∷ s) t [] h = refl
has_prefix-left (x ∷ s) t (c ∷ m) h = ground (arith, has_prefix-left s t m)

-- What omits a word has no piece that holds it.
pub Omits-left : (s t m : Bytes) → Omits m (s ++ t) → Omits m s
unfolding index
Omits-left [] [] m h = h
Omits-left [] (c ∷ t) m h = ground (arith, has_prefix-left [] (c ∷ t) m)
Omits-left (x ∷ s) t m h = ground (arith, has_prefix-left (x ∷ s) t m, Omits-left s t m)

-- A place that `index` returns is in the text, with the word behind it.
pub index-bound : (s m : Bytes) (n : ℕ) → index s m ≡ some n → n ≤ length s
unfolding index
index-bound [] m n h = ground arith
index-bound (c ∷ s) m zero h = omega arith
index-bound (c ∷ s) m (suc n) h = ground (arith, index-bound s m n)

-- A text with no first byte of the word omits the word.
pub Omits-Lacks : (c : ℕ) (m s : Bytes) → Lacks c s → Omits (c ∷ m) s
unfolding index has_prefix
Omits-Lacks c m [] h = refl
Omits-Lacks c m (x ∷ s) (hx, hs) = ground (arith, Omits-Lacks c m s hs)
