-- ===== src/Cbor/Reading.antt =====
-- Calls on a `CborReader` of src/format/cbor_reader.hpp: each may throw, and moves the position.
use scpefe.Base.{Bool, Bytes, Outcome, err, false, fault, ok, refl, true, ℕ, ◌≡◌}
use scpefe.Cbor.Limits.{RevisionError}

-- The bytes from `data_ + position_` to `data_ + size_`, and `position_`.
pub record Reader : Type 0 where
  pub rest : Bytes
  pub position : ℕ

abbrev pub at : Bytes → ℕ → Reader
at bs n = record { rest = bs; position = n }

abbrev pub Reads {ℓ} : Type ℓ → Type ℓ
Reads A = Reader → Outcome RevisionError (A × Reader)

abbrev pub return {ℓ} : {A : Type ℓ} → A → Reads A
return a r = ok (a, r)

abbrev pub fail {ℓ} : {A : Type ℓ} → RevisionError → Reads A
fail e r = err e

module _ {ℓ₁ ℓ₂} {A : Type ℓ₁} {B : Type ℓ₂} where
  infixl 5 ◌>>=◌
  abbrev pub ◌>>=◌ : Reads A → (A → Reads B) → Reads B
  ◌>>=◌ first next r = elim (first r) [
    | ok (a, s) ↦ next a s
    | err thrown ↦ err thrown
    | fault ↦ fault
  ]

module _ {ℓ₁} {B : Type ℓ₁} where
  infixl 5 ◌>>◌
  abbrev pub ◌>>◌ : Reads (Unit {0}) → Reads B → Reads B
  check >> rest = check >>= λ done. rest

-- `if (condition) fail(error);`
abbrev pub fail_if : Bool → RevisionError → Reads (Unit {0})
fail_if true e r = err e
fail_if false e r = ok (tt, r)

-- Inversion of two calls in a row that return.
pub >>=-eq-ok {ℓ κ} :
    {A : Type ℓ} {B : Type κ} (m : Reads A) (f : A → Reads B) (r : Reader) {x : B × Reader}
    → (m >>= f) r ≡ ok x
    → (a : A) × (s : Reader) × (m r ≡ ok (a, s)) × (f a s ≡ ok x)
>>=-eq-ok {A} {B} m f r {x} h = split (m r) refl
  where
    split :
        (o : Outcome RevisionError (A × Reader))
        → m r ≡ o
        → (a : A) × (s : Reader) × (m r ≡ ok (a, s)) × (f a s ≡ ok x)
    split (ok (a, s)) e = (a, s, e, rw (e, ◌>>=◌) at h)
    split (err y) e = cc (rw (e, ◌>>=◌) at h)
    split fault e = cc (rw (e, ◌>>=◌) at h)

-- Inversion of a test that passes.
pub checked-eq-ok {ℓ} :
    {A : Type ℓ} (b : Bool) (e : RevisionError) (m : Reads A) (r : Reader) {x : A × Reader}
    → (fail_if b e >> m) r ≡ ok x
    → (b ≡ false) × (m r ≡ ok x)
checked-eq-ok true e m r h = cc
checked-eq-ok false e m r h = (refl, h)

-- A call that returns, and the next call.
pub >>=-ok {ℓ κ} :
    {A : Type ℓ} {B : Type κ} (m : Reads A) (f : A → Reads B) (r s : Reader) (a : A)
    → m r ≡ ok (a, s)
    → (m >>= f) r ≡ f a s
>>=-ok m f r s a e = rw (e, ◌>>=◌) refl
