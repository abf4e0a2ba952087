-- ===== src/Snapshot/Spending.antt =====
-- Calls on a reader of src/format/cbor_reader.hpp which end, and return no more than they read.
use mathlib.Core.Path.{subst}
use scpefe.Base.{
  Bool, Bool-cases, ap, arith, false, fault, if◌then◌else◌, inl, inr, length, length-append, ltb,
  not, ok, suc, true, ℕ, ◌&&◌, ◌+◌, ◌==◌, ◌∙◌, ◌≡◌, ◌≢◌, ◌≤◌,
}
use scpefe.Cbor.Limits.{RevisionError, RevisionLimits, limit_exceeded, malformed_cbor}
use scpefe.Cbor.Locality.{
  Consumes, array-Consumes, boolean-Consumes, head-Consumes, map-Consumes, take_bytes-eq,
  text-Consumes, unsigned_integer-Consumes,
}
use scpefe.Cbor.Reader.{
  boolean, bytes, expect_unsigned, head, peek_unsigned, require_available, take_bytes,
  unsigned_integer,
}
use scpefe.Cbor.Reading.{>>=-eq-ok, Reader, Reads, fail_if, return, ◌>>=◌, ◌>>◌}
use scpefe.Cbor.Safety.{
  >>=-IsSafe, IsSafe, array-IsSafe, boolean_safe, head-IsSafe, map-IsSafe, text-IsSafe,
  unsigned_integer-IsSafe,
}
use scpefe.Cbor.Reader

-- No fault; and the weight of what is returned, with the bytes that are left, is at most `start` and
-- the bytes there were.
abbrev pub Spends : {A : Type 0} → ℕ → (A → ℕ) → Reads A → Type 0
Spends {A} start weight m =
    (r : Reader)
    → (m r ≢ fault)
      × ((a : A) (s : Reader) → m r ≡ ok (a, s) → weight a + length s.rest ≤ start + length r.rest)

module _ {A : Type 0} where
  pub return-Spends :
      (start : ℕ) (weight : A → ℕ) (a : A) → weight a ≤ start → Spends start weight (return a)
  return-Spends start weight a h r = (
    (λ e. cc),
    λ b s e.
        let value : a ≡ b = cc in
        let rest : r ≡ s = cc in
        subst (λ t. weight t + length s.rest ≤ start + length r.rest) value
          (subst (λ t. weight a + length t.rest ≤ start + length r.rest) rest (omega arith)),
  )

  pub checked-Spends :
      (start : ℕ) (weight : A → ℕ) (b : Bool) (x : RevisionError) (m : Reads A)
      → Spends start weight m
      → Spends start weight (fail_if b x >> m)
  checked-Spends start weight true x m h r = ((λ e. cc), λ a s e. absurd cc)
  checked-Spends start weight false x m h r = h r

  -- A call that returns nothing that weighs.
  pub light : (m : Reads A) (k : ℕ) → IsSafe m → Consumes k m → Spends 0 (λ a. 0) m
  light m k h c r = (
    h r,
    λ a s e.
        let (bytes, split, few, back) = c r s a e in
        let sizes : length r.rest ≡ length bytes + length s.rest =
          ap length split ∙ length-append bytes s.rest in
        omega arith,
  )

  pub Spends-weaken :
      (j k : ℕ) (weight : A → ℕ) (m : Reads A) → j ≤ k → Spends j weight m → Spends k weight m
  Spends-weaken j k weight m le h r = ((h r).0, λ a s e. let l = (h r).1 a s e in omega arith)

  pub Spends-suc :
      (k : ℕ) (weight : A → ℕ) (m : Reads A)
      → Spends k weight m
      → Spends (suc k) (λ a. suc (weight a)) m
  Spends-suc k weight m h r = ((h r).0, λ a s e. let l = (h r).1 a s e in omega arith)

module _ {A B : Type 0} where
  -- One call after the other.
  pub >>=-Spends :
      (start : ℕ) (v : A → ℕ) (w : B → ℕ) (m : Reads A) (f : A → Reads B)
      → Spends start v m
      → ((a : A) → Spends (v a) w (f a))
      → Spends start w (m >>= f)
  >>=-Spends start v w m f h k r = (
    (>>=-IsSafe m f (λ s. (h s).0) (λ a s. (k a s).0)) r,
    λ b t e.
        let (a, s, first, second) = >>=-eq-ok m f r e in
        let l1 = (h r).1 a s first in let l2 = (k a s).1 b t second in omega arith,
  )

  -- A call whose value does not weigh.
  pub then-Spends :
      (start : ℕ) (w : B → ℕ) (m : Reads A) (f : A → Reads B)
      → Spends 0 (λ a. 0) m
      → ((a : A) → Spends start w (f a))
      → Spends start w (m >>= f)
  then-Spends start w m f h k =
      >>=-Spends start (λ a. start) w m f
        (λ r. ((h r).0, λ a s e. let l = (h r).1 a s e in omega arith)) k

pub unsigned-Spends : Spends 0 (λ v. 0) unsigned_integer
unsigned-Spends = light unsigned_integer 1 unsigned_integer-IsSafe unsigned_integer-Consumes

pub test-Spends : (b : Bool) (x : RevisionError) → Spends 0 (λ u. 0) (fail_if b x)
test-Spends true x r = ((λ e. cc), λ a s e. absurd cc)
test-Spends false x r = return-Spends 0 (λ u. 0) tt (omega arith) r

pub expect-Spends : (k : ℕ) → Spends 0 (λ u. 0) (expect_unsigned k)
unfolding expect_unsigned
expect-Spends k =
    then-Spends 0 (λ u. 0) unsigned_integer _ unsigned-Spends λ v. test-Spends _ malformed_cbor

pub array-Spends :
    (limits : RevisionLimits) (depth : ℕ) → Spends 0 (λ v. 0) (Reader.array limits depth)
array-Spends limits depth =
    light (Reader.array limits depth) 1 (array-IsSafe limits depth) (array-Consumes limits depth)

pub map-Spends : (limits : RevisionLimits) (depth : ℕ) → Spends 0 (λ v. 0) (Reader.map limits depth)
map-Spends limits depth =
    light (Reader.map limits depth) 1 (map-IsSafe limits depth) (map-Consumes limits depth)

pub text-Spends : (limits : RevisionLimits) → Spends 0 (λ v. 0) (Reader.text limits)
text-Spends limits = light (Reader.text limits) 1 (text-IsSafe limits) (text-Consumes limits)

pub boolean-Spends : Spends 0 (λ v. 0) boolean
boolean-Spends = light boolean 1 (λ r. boolean_safe r.position r.rest) boolean-Consumes

pub peek-Spends : Spends 0 (λ v. 0) peek_unsigned
unfolding peek_unsigned
peek-Spends r = (
  (λ e. ground (arith, head-IsSafe 0 r)),
  λ a s e.
      let same : r ≡ s = ground (arith, head-IsSafe 0 r) in
      subst (λ t. 0 + length t.rest ≤ 0 + length r.rest) same (omega arith),
)

there-ne-fault : (n : ℕ) (r : Reader) → (require_available n >> take_bytes n) r ≢ fault
unfolding require_available take_bytes
there-ne-fault n r e = ground arith

-- Bytes of a size that is there.
sized-Spends : (n : ℕ) → Spends 0 length (require_available n >> take_bytes n)
unfolding require_available
sized-Spends n r = elim (Bool-cases (ltb (length r.rest) n)) [
  | inl short ↦ ((λ e. ground arith), λ a s e. absurd (ground arith))
  | inr fits ↦ (
    there-ne-fault n r,
    λ a s e.
        let taken : take_bytes n r ≡ ok (a, s) = ground arith in
        let (size, split) = take_bytes-eq n r s a taken in
        let sizes : length r.rest ≡ length a + length s.rest =
          ap length split ∙ length-append a s.rest in
        omega arith,
  )
]

pub bytes-Spends :
    (limits : RevisionLimits) (required maximum : ℕ)
    → Spends 0 length (Reader.bytes limits required maximum)
unfolding Reader.bytes
bytes-Spends limits required maximum =
    then-Spends 0 length (head 2) _ (light (head 2) 1 (head-IsSafe 2) (head-Consumes 2)) λ size.
      checked-Spends 0 length
        (ltb (if maximum == 0 then limits.max_byte_string_bytes else maximum) size) limit_exceeded _
        (checked-Spends 0 length (not (required == 0) && not (size == required)) malformed_cbor _
          (sized-Spends size))

-- The header of a map takes a byte.
pub map_paid : (limits : RevisionLimits) (depth : ℕ) → Spends 0 (λ v. 1) (Reader.map limits depth)
map_paid limits depth r = (
  map-IsSafe limits depth r,
  λ a s e.
      let (bytes, split, few, back) = map-Consumes limits depth r s a e in
      let sizes : length r.rest ≡ length bytes + length s.rest =
        ap length split ∙ length-append bytes s.rest in
      omega arith,
)
