-- ===== src/Base/Calls.antt =====
-- How a C++ call ends. `ok` is a return, `err` a thrown failure value, and `fault` what the
-- language leaves undefined, such as the dereference of an empty optional.
use mathlib.Core.Path.{◌≡◌, refl}
use mathlib.Core.Logic.{◌⊎◌, ◌≢◌, inl, inr}
use mathlib.Core.Bool.{Bool, true, false}

pub data Outcome {ℓ κ} (E : Type ℓ) (A : Type κ) : Type (ℓ ⊔ κ) where
  ok : A → Outcome E A
  err : E → Outcome E A
  fault : Outcome E A

-- A call whose result the next call takes; what is not returned is passed on.
module _ {ℓ₁ ℓ₂ ℓ₃} {E : Type ℓ₁} {A : Type ℓ₂} {B : Type ℓ₃} where
  infixl 5 ◌>>=◌
  abbrev pub ◌>>=◌ : Outcome E A → (A → Outcome E B) → Outcome E B
  fault >>= next = fault
  err thrown >>= next = err thrown
  ok value >>= next = next value

module _ {ℓ₁ ℓ₂} {E : Type ℓ₁} {B : Type ℓ₂} where
  infixl 5 ◌>>◌
  abbrev pub ◌>>◌ : Outcome E (Unit {0}) → Outcome E B → Outcome E B
  check >> rest = check >>= λ done. rest

-- `if (!condition) throw error;`
abbrev pub require_or {ℓ} : {E : Type ℓ} → E → Bool → Outcome E (Unit {0})
require_or e true = ok tt
require_or e false = err e

-- To split on a call and keep the equation.
pub Outcome-cases {ℓ κ} :
    {E : Type ℓ} {A : Type κ} (m : Outcome E A)
    → ((a : A) × (m ≡ ok a)) ⊎ (((e : E) × (m ≡ err e)) ⊎ (m ≡ fault))
Outcome-cases (ok a) = inl (a, refl)
Outcome-cases (err e) = inr (inl (e, refl))
Outcome-cases fault = inr (inr refl)

module _ {ℓ₁ ℓ₂} {E : Type ℓ₁} {A : Type ℓ₂} where
  -- A chain of tests that returned passed its first test.
  pub require_or-ok :
      (e : E) (b : Bool) (m : Outcome E A) (a : A)
      → (require_or e b >> m) ≡ ok a
      → (b ≡ true) × (m ≡ ok a)
  require_or-ok e true m a h = (refl, h)
  require_or-ok e false m a h = absurd cc

  -- And its first call returned.
  pub first-ok :
      (first : Outcome E (Unit {0})) (m : Outcome E A) (a : A)
      → (first >> m) ≡ ok a
      → (first ≡ ok tt) × (m ≡ ok a)
  first-ok (ok u) m a h = (refl, h)
  first-ok (err e) m a h = absurd cc
  first-ok fault m a h = absurd cc

  pub required-ne-fault :
      (b : Bool) (x : E) (m : Outcome E A) → m ≢ fault → (require_or x b >> m) ≢ fault
  required-ne-fault true x m h e = h e
  required-ne-fault false x m h e = cc

  pub first-ne-fault :
      (first : Outcome E (Unit {0})) (m : Outcome E A)
      → first ≢ fault
      → m ≢ fault
      → (first >> m) ≢ fault
  first-ne-fault (ok u) m h k = k
  first-ne-fault (err x) m h k = λ e. cc
  first-ne-fault fault m h k = absurd (h refl)
