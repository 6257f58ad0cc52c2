-- ===== src/Prelude/Errors.antt =====
-- A value or an error, for functions that return `(T, error)` or `error`.
use mathlib.Core.Path.{◌≡◌, refl}
use mathlib.Core.Bool.{Bool, true, false}

pub data Result {ℓ κ} (E : Type ℓ) (A : Type κ) : Type (ℓ ⊔ κ) where
  ok : A → Result E A
  err : E → Result E A

infixl 5 ◌>>=◌ ◌>>◌
abbrev pub ◌>>=◌ {ℓ κ ι} :
    {E : Type ℓ} {A : Type κ} {B : Type ι} → Result E A → (A → Result E B) → Result E B
ok a >>= f = f a
err e >>= f = err e

abbrev pub ◌>>◌ {ℓ ι} : {E : Type ℓ} {B : Type ι} → Result E (Unit {0}) → Result E B → Result E B
m >> k = m >>= λ _. k

-- `if !b { return e }`
abbrev pub require {ℓ} : {E : Type ℓ} → Bool → E → Result E (Unit {0})
require true e = ok tt
require false e = err e

-- `fmt.Errorf("...: %w", err)`
abbrev pub map_err {ℓ κ ι} :
    {E : Type ℓ} {F : Type κ} {A : Type ι} → (E → F) → Result E A → Result F A
map_err f (ok a) = ok a
map_err f (err e) = err (f e)

-- A chain that succeeds did so at each step.
pub >>=-eq-ok {ℓ κ ι} :
    {E : Type ℓ} {S : Type κ} {T : Type ι} (first : Result E S) (next : S → Result E T) {last : T}
    → (first >>= next) ≡ ok last
    → (mid : S) × (first ≡ ok mid) × (next mid ≡ ok last)
>>=-eq-ok (err e) next h = absurd (let no : err e ≡ ok _ = h in cc)
>>=-eq-ok (ok mid) next h = (mid, refl, h)

-- A chain of checks succeeds exactly if every check does.
pub >>-eq-ok {ℓ ι} :
    {E : Type ℓ} {B : Type ι} (m : Result E (Unit {0})) (k : Result E B) {b : B}
    → (m >> k) ≡ ok b
    → (m ≡ ok tt) × (k ≡ ok b)
>>-eq-ok (ok a) k h = (refl, h)
>>-eq-ok (err e) k h = cc

pub require-eq-ok {ℓ} : {E : Type ℓ} (b : Bool) (e : E) → require b e ≡ ok tt → b ≡ true
require-eq-ok true e h = refl
require-eq-ok false e h = cc

pub map_err-eq-ok {ℓ κ ι} :
    {E : Type ℓ} {F : Type κ} {A : Type ι} (f : E → F) (m : Result E A) {a : A}
    → map_err f m ≡ ok a
    → m ≡ ok a
map_err-eq-ok f (ok a) h = cc
map_err-eq-ok f (err e) h = cc

-- Of what a call returns when it succeeds.
abbrev pub Ensures {ℓ κ} : {E : Type ℓ} {A : Type κ} → (A → Type 0) → Result E A → Type 0
Ensures P (ok a) = P a
Ensures P (err e) = Unit

pub >>=-Ensures {ℓ κ ι} :
    {E : Type ℓ} {A : Type κ} {B : Type ι} (P : A → Type 0) (Q : B → Type 0) (m : Result E A)
    (next : A → Result E B)
    → Ensures P m
    → ((a : A) → P a → Ensures Q (next a))
    → Ensures Q (m >>= next)
>>=-Ensures P Q (ok a) next h k = k a h
>>=-Ensures P Q (err e) next h k = tt

pub >>-Ensures {ℓ ι} :
    {E : Type ℓ} {B : Type ι} (Q : B → Type 0) (m : Result E (Unit {0})) (next : Result E B)
    → Ensures Q next
    → Ensures Q (m >> next)
>>-Ensures Q (ok a) next h = h
>>-Ensures Q (err e) next h = tt

pub Ensures-any {ℓ κ} : {E : Type ℓ} {A : Type κ} (m : Result E A) → Ensures (λ a. Unit) m
Ensures-any (ok a) = tt
Ensures-any (err e) = tt

pub Ensures-ok {ℓ κ} :
    {E : Type ℓ} {A : Type κ} (P : A → Type 0) (m : Result E A) {a : A}
    → Ensures P m
    → m ≡ ok a
    → P a
Ensures-ok P m h e = rw e at h
