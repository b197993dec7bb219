-- ===== src/Base/Result.antt =====
-- A Go result `(A, error)`: a value, or an error of the component's own type. A run-time panic is
-- one of those errors.
use mathlib.Core.Path.{◌≡◌, refl}

pub data Result {ℓ κ} (E : Type κ) (A : Type ℓ) : Type (ℓ ⊔ κ) where
  ok : A → Result E A
  err : E → Result E A

infixl 5 ◌>>=◌
abbrev pub ◌>>=◌ {ℓ ι κ} :
    {E : Type κ} {A : Type ℓ} {B : Type ι} → Result E A → (A → Result E B) → Result E B
ok a >>= f = f a
err e >>= f = err e

-- The two steps that a chain which came out with a value has taken.
abbrev pub Steps {ℓ ι κ} :
    {E : Type κ} {A : Type ℓ} {B : Type ι} → Result E A → (A → Result E B) → B → Type (ℓ ⊔ ι ⊔ κ)
Steps {A = A} first next out = (x : A) × (first ≡ ok x) × (next x ≡ ok out)

pub >>=-eq-ok {ℓ ι κ} :
    {E : Type κ} {A : Type ℓ} {B : Type ι} (first : Result E A) (next : A → Result E B) {out : B}
    → (first >>= next) ≡ ok out
    → Steps first next out
>>=-eq-ok (err e) next ran = cc
>>=-eq-ok (ok x) next ran = (x, refl, ran)
