-- ===== src/Cbor/Safety.antt =====
-- No call on a reader of src/format/cbor_reader.cpp reads past the end of its input, whatever the
-- input holds, and the recursion of `skip_extension` ends within the depth limit.
use scpefe.Base.{
  Bool, Bool-cases, Bytes, Outcome, [], arith, drop, err, false, fault, inl, inr, leb, length, ltb,
  not, ok, refl, suc, take, true, zero, ℕ, ◌%◌, ◌&&◌, ◌*◌, ◌+◌, ◌-◌, ◌/◌, ◌<◌, ◌^◌, ◌∷◌, ◌≡◌, ◌≢◌,
  ◌≤◌,
}
use scpefe.Cbor.Limits.{RevisionError, RevisionLimits, limit_exceeded, malformed_cbor}
use scpefe.Cbor.Reader.{
  array, boolean, bytes, collection, discard, expect_unsigned, head, long_head, peek_major,
  peek_unsigned, require_available, skip_at, skip_entries, skip_extension, skip_major, skip_simple,
  skip_values, take_bytes, text, unsigned_integer, width,
}
use scpefe.Cbor.Reading.{Reader, Reads, at, fail_if, ◌>>=◌, ◌>>◌}
use scpefe.Cbor.Reader

abbrev pub IsSafe {ℓ} : {A : Type ℓ} → Reads A → Type ℓ
IsSafe m = (r : Reader) → m r ≢ fault

-- A call is safe if its parts are, at every value that the first may return.
pub >>=-IsSafe {ℓ} :
    {A B : Type ℓ} (m : Reads A) (f : A → Reads B)
    → IsSafe m
    → ((a : A) → IsSafe (f a))
    → IsSafe (m >>= f)
>>=-IsSafe {A} {B} m f hm hf r h = split (m r) (hm r) (λ a s e. hf a s) h
  where
    split :
        (o : Outcome RevisionError (A × Reader))
        → o ≢ fault
        → ((a : A) (s : Reader) → o ≡ ok (a, s) → f a s ≢ fault)
        → (elim o [ ok (a, s) ↦ f a s | err e ↦ err e | fault ↦ fault ]) ≢ fault
    split (ok (a, s)) n g = g a s refl
    split (err e) n g = λ p. cc
    split fault n g = λ p. n refl

big_endian_safe :
    (n value p : ℕ) (bs : Bytes) → n ≤ length bs → Reader.big_endian n value (at bs p) ≢ fault
unfolding Reader.big_endian
big_endian_safe zero value p bs h e = cc
big_endian_safe (suc n) value p [] h e = absurd (omega arith)
big_endian_safe (suc n) value p (b ∷ bs) h e =
    big_endian_safe n (value * 256 % 2 ^ 64 + b) (p + 1) bs (omega arith) e

long_head-IsSafe : (count : ℕ) → IsSafe (long_head count)
unfolding long_head
long_head-IsSafe count r e = ground (arith, big_endian_safe count 0 r.position r.rest)

head_safe : (major p : ℕ) (bs : Bytes) → head major (at bs p) ≢ fault
unfolding head
head_safe major p [] e = ground arith
head_safe major p (b ∷ bs) e = ground (arith, long_head-IsSafe (width (b % 32)) (at bs (p + 1)))

pub head-IsSafe : (major : ℕ) → IsSafe (head major)
head-IsSafe major r = head_safe major r.position r.rest

pub bytes-IsSafe :
    (limits : RevisionLimits) (required maximum : ℕ) → IsSafe (bytes limits required maximum)
unfolding bytes
bytes-IsSafe limits required maximum =
    >>=-IsSafe (head 2) _ (head-IsSafe 2) (λ size r e. ground arith)

counted-IsSafe :
    (size : ℕ) (f : Bytes → Reads Bytes)
    → ((v : Bytes) → IsSafe (f v))
    → IsSafe (require_available size >> (take_bytes size >>= f))
unfolding require_available take_bytes
counted-IsSafe size f h r e =
    ground (arith, h (take size r.rest) (at (drop size r.rest) (r.position + size)))

pub text-IsSafe : (limits : RevisionLimits) → IsSafe (text limits)
unfolding text
text-IsSafe limits = >>=-IsSafe (head 3) _ (head-IsSafe 3) λ size.
    >>=-IsSafe (fail_if (ltb limits.max_text_bytes size) limit_exceeded) _ (λ r e. ground arith)
      λ u. counted-IsSafe size _ λ v r e. ground arith

pub boolean_safe : (p : ℕ) (bs : Bytes) → boolean (at bs p) ≢ fault
unfolding boolean
boolean_safe p [] e = ground arith
boolean_safe p (b ∷ bs) e = ground arith

collection-IsSafe :
    (limits : RevisionLimits) (major depth : ℕ) → IsSafe (collection limits major depth)
unfolding collection
collection-IsSafe limits major depth r e = ground (arith, head-IsSafe major r)

discard-IsSafe {ℓ} : {A : Type ℓ} (m : Reads A) → IsSafe m → IsSafe (discard m)
unfolding discard
discard-IsSafe m h r e = ground (arith, h r)

skip_values-IsSafe : (skip : Reads (Unit {0})) (n : ℕ) → IsSafe skip → IsSafe (skip_values skip n)
unfolding skip_values
skip_values-IsSafe skip zero h = λ r e. cc
skip_values-IsSafe skip (suc n) h = >>=-IsSafe skip _ h (λ u. skip_values-IsSafe skip n h)

pub unsigned_integer-IsSafe : IsSafe unsigned_integer
unfolding unsigned_integer
unsigned_integer-IsSafe = head-IsSafe 0

skip_entries-IsSafe :
    (skip : Reads (Unit {0})) (first : Bool) (prior n : ℕ)
    → IsSafe skip
    → IsSafe (skip_entries skip first prior n)
unfolding skip_entries
skip_entries-IsSafe skip first prior zero h = λ r e. cc
skip_entries-IsSafe skip first prior (suc n) h =
    >>=-IsSafe unsigned_integer _ unsigned_integer-IsSafe λ key.
      >>=-IsSafe (fail_if (not first && leb key prior) malformed_cbor) _ (λ r e. ground arith)
        λ u. >>=-IsSafe skip _ h λ v. skip_entries-IsSafe skip false key n h

pub array-IsSafe : (limits : RevisionLimits) (depth : ℕ) → IsSafe (array limits depth)
unfolding array
array-IsSafe limits depth = collection-IsSafe limits 4 depth

pub map-IsSafe : (limits : RevisionLimits) (depth : ℕ) → IsSafe (Reader.map limits depth)
unfolding Reader.map
map-IsSafe limits depth = collection-IsSafe limits 5 depth

skip_simple_safe : (p : ℕ) (bs : Bytes) → bs ≢ [] → skip_simple (at bs p) ≢ fault
unfolding skip_simple
skip_simple_safe p [] h e = h refl
skip_simple_safe p (b ∷ bs) h e =
    ground (arith, discard-IsSafe boolean (λ r. boolean_safe r.position r.rest) (at (b ∷ bs) p))

skip_major_safe :
    (limits : RevisionLimits) (skip : Reads (Unit {0})) (depth major p : ℕ) (bs : Bytes)
    → IsSafe skip
    → bs ≢ []
    → skip_major limits skip depth major (at bs p) ≢ fault
unfolding skip_major
skip_major_safe limits skip depth major p bs h n = ground (
  arith,
  discard-IsSafe (head 0) (head-IsSafe 0) (at bs p),
  discard-IsSafe (head 1) (head-IsSafe 1) (at bs p),
  discard-IsSafe (bytes limits 0 0) (bytes-IsSafe limits 0 0) (at bs p),
  discard-IsSafe (text limits) (text-IsSafe limits) (at bs p),
  >>=-IsSafe (array limits depth) _ (array-IsSafe limits depth)
      (λ count. skip_values-IsSafe skip count h) (at bs p),
  >>=-IsSafe (Reader.map limits depth) _ (map-IsSafe limits depth)
      (λ count. skip_entries-IsSafe skip true 0 count h) (at bs p),
  skip_simple_safe p bs n,
)

skip_at_safe :
    (limits : RevisionLimits) (fuel depth p : ℕ) (bs : Bytes)
    → 0 < fuel
    → limits.max_nesting_depth + 2 ≤ fuel + depth
    → skip_at limits fuel depth (at bs p) ≢ fault
unfolding skip_at peek_major
skip_at_safe limits zero depth p bs pos h e = absurd (omega arith)
skip_at_safe limits (suc fuel) depth p [] pos h e = ground arith
skip_at_safe limits (suc fuel) depth p (b ∷ bs) pos h e =
    elim (Bool-cases (ltb limits.max_nesting_depth depth)) [
      | inl deep ↦ ground arith
      | inr fits ↦
          skip_major_safe limits (skip_at limits fuel (depth + 1)) depth (b / 32) p (b ∷ bs)
            (λ r x.
              skip_at_safe limits fuel (depth + 1) r.position r.rest (ground arith) (omega arith) x)
            (λ x. cc) (ground arith)
    ]

peek_major_safe : (p : ℕ) (bs : Bytes) → peek_major (at bs p) ≢ fault
unfolding peek_major
peek_major_safe p [] e = cc
peek_major_safe p (b ∷ bs) e = cc

expect_unsigned-IsSafe : (n : ℕ) → IsSafe (expect_unsigned n)
unfolding expect_unsigned
expect_unsigned-IsSafe n = >>=-IsSafe (head 0) _ (head-IsSafe 0) (λ v r e. ground arith)

peek_unsigned-IsSafe : IsSafe peek_unsigned
unfolding peek_unsigned
peek_unsigned-IsSafe r e = ground (arith, head-IsSafe 0 r)

pub skip_extension-IsSafe :
    (limits : RevisionLimits) (depth : ℕ) → IsSafe (skip_extension limits depth)
unfolding skip_extension
skip_extension-IsSafe limits depth r =
    skip_at_safe limits (suc (limits.max_nesting_depth + 1 - depth)) depth r.position r.rest
      (omega arith) (omega arith)

-- Whatever the input, no call reads past its end, and skipping an extension value of any nesting
-- ends within its fuel: each call returns or throws a failure.
pub reader-IsSafe :
    (limits : RevisionLimits) (n m : ℕ)
    → IsSafe (head n)
      × IsSafe (expect_unsigned n)
      × IsSafe peek_unsigned
      × IsSafe boolean
      × IsSafe (array limits n)
      × IsSafe (Reader.map limits n)
      × IsSafe (bytes limits n m)
      × IsSafe (text limits)
      × IsSafe peek_major
      × IsSafe (skip_extension limits n)
reader-IsSafe limits n m = (
  head-IsSafe n,
  expect_unsigned-IsSafe n,
  peek_unsigned-IsSafe,
  (λ r. boolean_safe r.position r.rest),
  array-IsSafe limits n,
  map-IsSafe limits n,
  bytes-IsSafe limits n m,
  text-IsSafe limits,
  (λ r. peek_major_safe r.position r.rest),
  skip_extension-IsSafe limits n,
)
