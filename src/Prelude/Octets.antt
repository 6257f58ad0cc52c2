-- ===== src/Prelude/Octets.antt =====
-- Go strings and byte slices as lists of byte values.
use Prim.Native.Nat.{ℕ}
use Prim.Native.Char.{code}
use Prim.Native.String.{String}
use mathlib.Core.Path.{◌≡◌, refl}
use mathlib.Core.Logic.{◌↔◌}
use mathlib.Core.Bool.{Bool, true, false, ◌&&◌}
use mathlib.Core.List.{List, [], ◌∷◌}
use native.Mathlib.Omega.{arith}
use argonaut.Prelude.Tests.{◌==◌}

abbrev pub Bytes : Type 0
Bytes = List ℕ

-- The bytes of an ASCII literal.
abbrev pub codes : String → Bytes
codes String.[] = []
codes (String.◌∷◌ c s) = code c ∷ codes s

-- `a == b` on strings.
unfoldable pub equal : List ℕ → List ℕ → Bool
equal (c ∷ s) (d ∷ t) = c == d && equal s t
equal (c ∷ s) [] = false
equal [] (d ∷ t) = false
equal [] [] = true

pub equal_iff : (s t : Bytes) → (equal s t ≡ true) ↔ (s ≡ t)
unfolding equal
equal_iff [] [] = (λ _. refl, λ _. refl)
equal_iff [] (d ∷ t) = (λ h. cc, λ h. cc)
equal_iff (c ∷ s) [] = (λ h. cc, λ h. cc)
equal_iff (c ∷ s) (d ∷ t) = let tails = equal_iff s t in ground (arith, tails)
