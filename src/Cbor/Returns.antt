-- ===== src/Cbor/Returns.antt =====
-- What holds of a value that a call on a reader of src/format/cbor_reader.cpp returned, by the
-- calls that it consists of.
-- Whatever the call returns has the property.
use mathlib.Core.Path.{subst}
use scpefe.Base.{Bool, arith, false, ok, ◌≡◌}
use scpefe.Cbor.Limits.{RevisionError}
use scpefe.Cbor.Reading.{>>=-eq-ok, Reader, Reads, checked-eq-ok, fail_if, return, ◌>>=◌, ◌>>◌}

pub record Returns {ℓ κ} {A : Type ℓ} (m : Reads A) (P : A → Type κ) : Type (ℓ ⊔ κ) where
  pub holds : (r s : Reader) (a : A) → m r ≡ ok (a, s) → P a

pub return-Returns {ℓ κ} : {A : Type ℓ} (P : A → Type κ) (a : A) → P a → Returns (return a) P
return-Returns P a h = record {
  holds = λ r s b e. let same : a ≡ b = ground arith in subst P same h;
}

pub any-Returns {ℓ} : {A : Type ℓ} (m : Reads A) → Returns m (λ a. Unit {0})
any-Returns m = record { holds = λ r s a e. tt }

pub checked-Returns {ℓ κ} :
    {A : Type ℓ} {P : A → Type κ} (b : Bool) (x : RevisionError) {m : Reads A}
    → (b ≡ false → Returns m P)
    → Returns (fail_if b x >> m) P
checked-Returns b x {m} h = record {
  holds = λ r s a e. let (passes, rest) = checked-eq-ok b x m r e in (h passes).holds r s a rest;
}

pub >>=-Returns {ℓ₁ ℓ₂ ℓ₃ ℓ₄} :
    {A : Type ℓ₁} {B : Type ℓ₂} {P : A → Type ℓ₃} {Q : B → Type ℓ₄} {m : Reads A} (f : A → Reads B)
    → Returns m P
    → ((a : A) → P a → Returns (f a) Q)
    → Returns (m >>= f) Q
>>=-Returns {m = m} f h k = record {
  holds =
      λ r s b e. let (a, t, e1, e2) = >>=-eq-ok m f r e in (k a (h.holds r t a e1)).holds t s b e2;
}
