-- ===== src/Base/Outcome.antt =====
-- What a Go call that may fail comes to: a value, an error value, or a run-time panic.
use mathlib.Core.Path.{◌≡◌, refl}
use mathlib.Core.Bool.{Bool, true, false}
use mathlib.Core.Option.{Option, none, some}

pub data Outcome {ℓ κ} (E : Type ℓ) (A : Type κ) : Type (ℓ ⊔ κ) where
  ok : A → Outcome E A
  err : E → Outcome E A
  panic : Outcome E A

infixl 5 ◌>>=◌ ◌>>◌
abbrev pub ◌>>=◌ {ℓ κ μ} :
    {E : Type ℓ} {A : Type κ} {B : Type μ} → Outcome E A → (A → Outcome E B) → Outcome E B
panic >>= k = panic
err why >>= k = err why
ok a >>= k = k a

abbrev pub ◌>>◌ {ℓ κ} : {E : Type ℓ} {B : Type κ} → Outcome E (Unit {0}) → Outcome E B → Outcome E B
panic >> next = panic
err why >> next = err why
ok done >> next = next

-- `if !test { return err }`
abbrev pub check {ℓ} : {E : Type ℓ} → Bool → E → Outcome E (Unit {0})
check true e = ok tt
check false e = err e

-- A slice or index expression that panics when it is out of range.
abbrev pub in_range {ℓ} : {E : Type ℓ} → Bool → Outcome E (Unit {0})
in_range true = ok tt
in_range false = panic

abbrev pub or_err {ℓ κ} : {E : Type ℓ} {A : Type κ} → Option A → E → Outcome E A
or_err none e = err e
or_err (some a) e = ok a

-- A chain that succeeds went through its first step.
module _ {ℓ κ μ} {E : Type ℓ} {A : Type κ} {B : Type μ} (k : A → Outcome E B) {b : B} where
  pub first_step : (m : Outcome E A) → (m >>= k) ≡ ok b → (a : A) × (m ≡ ok a) × (k a ≡ ok b)
  first_step panic e = cc
  first_step (err why) e = cc
  first_step (ok a) e = (a, refl, e)
