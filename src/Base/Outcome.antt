-- ===== src/Base/Outcome.antt =====
-- What a fallible step promises of its value and of its error.
use mathlib.Core.Bool.{Bool, true, false}
use mathlib.Core.Option.{Option, none, some}
use gogguf.Base.Tests.{if◌then◌else◌}
use mathlib.Core.Path.{◌≡◌, subst}
use gogguf.Base.Result.{Result, ok, err, ◌>>=◌}

pub data Promises {E A : Type 0} (P : A → Type 0) (Q : E → Type 0) : Result E A → Type 0 where
  gives : {a : A} → P a → Promises P Q (ok a)
  fails : {e : E} → Q e → Promises P Q (err e)

module _ {E A : Type 0} {P : A → Type 0} {Q : E → Type 0} where
  pub Promises-bind :
      {B : Type 0} {R : B → Type 0} {r : Result E A} {f : A → Result E B}
      → Promises P Q r
      → ((a : A) → P a → Promises R Q (f a))
      → Promises R Q (r >>= f)
  Promises-bind (gives {a} h) k = k a h
  Promises-bind (fails q) k = fails q

  pub Promises-weaken :
      {R : A → Type 0} {r : Result E A} → Promises P Q r → ((a : A) → P a → R a) → Promises R Q r
  Promises-weaken (gives {a} h) k = gives (k a h)
  Promises-weaken (fails q) k = fails q

  pub Promises-err : {r : Result E A} {e : E} → Promises P Q r → r ≡ err e → Q e
  Promises-err (gives h) e = absurd (cc)
  Promises-err (fails q) e = subst Q (cc) q

  pub Promises-ok : {r : Result E A} {a : A} → Promises P Q r → r ≡ ok a → P a
  Promises-ok (gives h) e = subst P (cc) h
  Promises-ok (fails q) e = absurd (cc)

-- What holds in both branches.
pub if_holds :
    {A : Type 0} (P : A → Type 0) (b : Bool) {x y : A} → P x → P y → P (if b then x else y)
if_holds P true h k = h
if_holds P false h k = k

pub option_holds :
    {A B : Type 0} (P : A → Type 0) (o : Option B) {x : A} {f : B → A}
    → P x
    → ((b : B) → P (f b))
    → P (elim o [ none ↦ x | some b ↦ f b ])
option_holds P none h k = h
option_holds P (some b) h k = k b
