-- ===== src/Cbor/Locality.antt =====
-- A call on a reader of src/format/cbor_reader.cpp that returns has looked at nothing behind the
-- bytes that it consumed: over the same bytes it returns the same, whatever follows.
use mathlib.Core.List.{append_assoc}
use scpefe.Base.{
  Bool, Bool-cases, Bytes, [], ap, arith, false, if◌then◌else◌, inl, inr, length, length-append,
  length-take, ltb, not, ok, suc, take-append-drop, true, zero, ℕ, ◌%◌, ◌&&◌, ◌*◌, ◌++◌, ◌+◌, ◌-◌,
  ◌/◌, ◌==◌, ◌^◌, ◌||◌, ◌∙◌, ◌∷◌, ◌≡◌, ◌≤◌,
}
use scpefe.Cbor.Items.{>>=-ReadsBack, ReadsBack, byte_limit, taken_back}
use scpefe.Cbor.Limits.{RevisionError, RevisionLimits, limit_exceeded, malformed_cbor}
use scpefe.Cbor.Reader.{
  boolean, collection, discard, head, long_head, next_byte, peek_major, require_available, skip_at,
  skip_entries, skip_extension, skip_major, skip_simple, skip_values, take_bytes, unsigned_integer,
  width,
}
use scpefe.Cbor.Reading.{>>=-eq-ok, Reader, Reads, at, fail, fail_if, return, ◌>>=◌, ◌>>◌}
use scpefe.Cbor.Reader

-- A call that returns consumed at least `k` bytes, and reads its value back from them.
abbrev pub Consumes {ℓ} : {A : Type ℓ} → ℕ → Reads A → Type ℓ
Consumes {A = A} k m =
    (r s : Reader) (a : A)
    → m r ≡ ok (a, s)
    → (c : Bytes) × (r.rest ≡ c ++ s.rest) × (k ≤ length c) × ReadsBack m c a

module _ {ℓ} {A : Type ℓ} where
  pub return-Consumes : (a : A) → Consumes 0 (return a)
  return-Consumes a r s b e = ([], ground arith, omega arith, λ rest n. ground arith)

  pub fail-Consumes : (k : ℕ) (x : RevisionError) → Consumes {A = A} k (fail x)
  fail-Consumes k x r s b e = cc

  pub Consumes-weaken : (j k : ℕ) (m : Reads A) → k ≤ j → Consumes j m → Consumes k m
  Consumes-weaken j k m le h r s a e = let (c, q, l, back) = h r s a e in (c, q, omega arith, back)

  pub if-Consumes :
      (k : ℕ) (b : Bool) (m n : Reads A)
      → Consumes k m
      → Consumes k n
      → Consumes k (if b then m else n)
  if-Consumes k true m n h g = h
  if-Consumes k false m n h g = g

  pub checked-Consumes :
      (k : ℕ) (b : Bool) (x : RevisionError) (m : Reads A)
      → Consumes k m
      → Consumes k (fail_if b x >> m)
  checked-Consumes k true x m h r s a e = cc
  checked-Consumes k false x m h r s a e = h r s a e

  -- A length test that the consumed bytes pass.
  pub available-Consumes :
      (k : ℕ) (m : Reads A) → Consumes k m → Consumes k (require_available k >> m)
  unfolding require_available
  available-Consumes k m h r s a e = elim (Bool-cases (ltb (length r.rest) k)) [
    | inl short ↦ absurd (ground arith)
    | inr fits ↦
        let (c, q, l, back) = h r s a (ground arith) in
        (c, q, l, λ rest n. ground (arith, length-append c rest, back rest n))
  ]

pub >>=-Consumes {ℓ κ} :
    {A : Type ℓ} {B : Type κ} (j k : ℕ) (m : Reads A) (f : A → Reads B)
    → Consumes j m
    → ((a : A) → Consumes k (f a))
    → Consumes (j + k) (m >>= f)
>>=-Consumes j k m f hm hf r t b e =
    let (a, s, e1, e2) = >>=-eq-ok m f r e in
    let (c1, q1, l1, b1) = hm r s a e1 in
    let (c2, q2, l2, b2) = hf a s t b e2 in
    (
      c1 ++ c2,
      rw (append_assoc c1 c2 t.rest) (q1 ∙ ap (λ z. c1 ++ z) q2),
      omega (arith, length-append c1 c2),
      >>=-ReadsBack m f c1 c2 a b b1 b2,
    )

next_byte_local :
    (bs : Bytes) (p : ℕ) (s : Reader) (a : ℕ)
    → next_byte (at bs p) ≡ ok (a, s)
    → (c : Bytes) × (bs ≡ c ++ s.rest) × (1 ≤ length c) × ReadsBack next_byte c a
unfolding next_byte
next_byte_local [] p s a e = cc
next_byte_local (b ∷ bs) p s a e = (b ∷ [], ground arith, omega arith, λ rest n. ground arith)

next_byte-Consumes : Consumes 1 next_byte
next_byte-Consumes r s a e = next_byte_local r.rest r.position s a e

big_endian-Consumes : (n value : ℕ) → Consumes n (Reader.big_endian n value)
unfolding Reader.big_endian
big_endian-Consumes zero value = return-Consumes value
big_endian-Consumes (suc n) value = Consumes-weaken (1 + n) (suc n) _ (omega arith) (
    >>=-Consumes 1 n next_byte _ next_byte-Consumes
      (λ b. big_endian-Consumes n (value * 256 % 2 ^ 64 + b)))

pub take_bytes-eq :
    (n : ℕ) (r s : Reader) (a : Bytes)
    → take_bytes n r ≡ ok (a, s)
    → (n ≡ length a) × (r.rest ≡ a ++ s.rest)
unfolding take_bytes
take_bytes-eq n r s a e = elim (Bool-cases (ltb (length r.rest) n)) [
  | inl short ↦ absurd (ground arith)
  | inr fits ↦
      let whole = take-append-drop n r.rest in
      let size = length-take n r.rest (ground arith) in
      (ground (arith, size), ground (arith, whole))
]

take_bytes-Consumes : (n : ℕ) → Consumes n (take_bytes n)
take_bytes-Consumes n r s a e =
    let (size, whole) = take_bytes-eq n r s a e in (a, whole, omega arith, rw size (taken_back a))

long_head-Consumes : (count : ℕ) → Consumes count (long_head count)
unfolding long_head
long_head-Consumes count = available-Consumes count _ (
    Consumes-weaken (count + 0) count _ (omega arith) (
      >>=-Consumes count 0 (Reader.big_endian count 0) _ (big_endian-Consumes count 0)
        λ value. checked-Consumes 0 _ _ _ (return-Consumes value)))

pub head-Consumes : (major : ℕ) → Consumes 1 (head major)
unfolding head
head-Consumes major = available-Consumes 1 _ (
    >>=-Consumes 1 0 next_byte _ next_byte-Consumes λ b. checked-Consumes 0 _ _ _ (
      if-Consumes 0 (ltb (b % 32) 24) _ _ (return-Consumes (b % 32))
        (Consumes-weaken (width (b % 32)) 0 _ (omega arith) (long_head-Consumes (width (b % 32))))))

pub unsigned_integer-Consumes : Consumes 1 unsigned_integer
unfolding unsigned_integer
unsigned_integer-Consumes = head-Consumes 0

pub boolean-Consumes : Consumes 1 boolean
unfolding boolean
boolean-Consumes = available-Consumes 1 _ (
    >>=-Consumes 1 0 next_byte _ next_byte-Consumes λ b.
      if-Consumes 0 (b == 0xf4) _ _ (return-Consumes false)
        (if-Consumes 0 (b == 0xf5) _ _ (return-Consumes true) (fail-Consumes 0 malformed_cbor)))

-- A string of a size, behind its header.
sized-Consumes :
    (size : ℕ) (f : Bytes → Reads Bytes)
    → ((v : Bytes) → Consumes 0 (f v))
    → Consumes 0 (require_available size >> (take_bytes size >>= f))
sized-Consumes size f h = Consumes-weaken size 0 _ (omega arith) (
    available-Consumes size _ (
      Consumes-weaken (size + 0) size _ (omega arith)
        (>>=-Consumes size 0 (take_bytes size) f (take_bytes-Consumes size) h)))

pub bytes-Consumes :
    (limits : RevisionLimits) (required maximum : ℕ)
    → Consumes 1 (Reader.bytes limits required maximum)
unfolding Reader.bytes
bytes-Consumes limits required maximum = >>=-Consumes 1 0 (head 2) _ (head-Consumes 2) λ size.
    let sized =
      Consumes-weaken size 0 (require_available size >> take_bytes size) (omega arith)
        (available-Consumes size _ (take_bytes-Consumes size)) in
    checked-Consumes 0 (ltb (byte_limit limits maximum) size) limit_exceeded _
      (checked-Consumes 0 (not (required == 0) && not (size == required)) malformed_cbor _ sized)

pub text-Consumes : (limits : RevisionLimits) → Consumes 1 (Reader.text limits)
unfolding Reader.text
text-Consumes limits = >>=-Consumes 1 0 (head 3) _ (head-Consumes 3) λ size.
    checked-Consumes 0 _ _ _
      (sized-Consumes size _ λ v. checked-Consumes 0 _ _ _ (return-Consumes v))

collection-Consumes :
    (limits : RevisionLimits) (major depth : ℕ) → Consumes 1 (collection limits major depth)
unfolding collection
collection-Consumes limits major depth = checked-Consumes 1 _ _ _ (
    >>=-Consumes 1 0 (head major) _ (head-Consumes major)
      λ count. checked-Consumes 0 _ _ _ (return-Consumes count))

pub array-Consumes : (limits : RevisionLimits) (depth : ℕ) → Consumes 1 (Reader.array limits depth)
unfolding Reader.array
array-Consumes limits depth = collection-Consumes limits 4 depth

pub map-Consumes : (limits : RevisionLimits) (depth : ℕ) → Consumes 1 (Reader.map limits depth)
unfolding Reader.map
map-Consumes limits depth = collection-Consumes limits 5 depth

module _ (skip : Reads (Unit {0})) (h : Consumes 1 skip) where
  skip_values-Consumes : (n : ℕ) → Consumes 0 (skip_values skip n)
  unfolding skip_values
  skip_values-Consumes zero = return-Consumes tt
  skip_values-Consumes (suc n) =
      Consumes-weaken (1 + 0) 0 _ (omega arith)
        (>>=-Consumes 1 0 skip _ h (λ u. skip_values-Consumes n))

  skip_entries-Consumes :
      (first : Bool) (prior n : ℕ) → Consumes 0 (skip_entries skip first prior n)
  unfolding skip_entries
  skip_entries-Consumes first prior zero = return-Consumes tt
  skip_entries-Consumes first prior (suc n) = Consumes-weaken (1 + 1) 0 _ (omega arith) (
      >>=-Consumes 1 1 unsigned_integer _ unsigned_integer-Consumes λ k.
        checked-Consumes 1 _ _ _ (>>=-Consumes 1 0 skip _ h λ u. skip_entries-Consumes false k n))

discard-Consumes {ℓ} : {A : Type ℓ} (m : Reads A) → Consumes 1 m → Consumes 1 (discard m)
unfolding discard
discard-Consumes m h = >>=-Consumes 1 0 m _ h (λ a. return-Consumes tt)

-- The first of the consumed bytes is the first byte.
first_consumed :
    (b : ℕ) (bs c t : Bytes) → b ∷ bs ≡ c ++ t → 1 ≤ length c → (d : Bytes) × (c ≡ b ∷ d)
first_consumed b bs [] t q l = absurd (omega arith)
first_consumed b bs (x ∷ c) t q l = (c, ground arith)

skip_simple_local :
    (bs : Bytes) (p : ℕ) (s : Reader) (a : Unit {0})
    → skip_simple (at bs p) ≡ ok (a, s)
    → (c : Bytes) × (bs ≡ c ++ s.rest) × (1 ≤ length c) × ReadsBack skip_simple c a
unfolding skip_simple
skip_simple_local [] p s a e = cc
skip_simple_local (b ∷ bs) p s a e = elim (Bool-cases (b == 0xf4 || b == 0xf5)) [
  | inl flag ↦
      let (c, q, l, back) =
        discard-Consumes boolean boolean-Consumes (at (b ∷ bs) p) s a (ground arith) in
      let (d, same) = first_consumed b bs c s.rest q l in
      (c, q, l, λ rest n. let again = rw same at (back rest n) in rw same (ground arith))
  | inr other ↦ (b ∷ [], ground arith, omega arith, λ rest n. ground arith)
]

skip_simple-Consumes : Consumes 1 skip_simple
skip_simple-Consumes r s a e = skip_simple_local r.rest r.position s a e

skip_major-Consumes :
    (limits : RevisionLimits) (skip : Reads (Unit {0})) (depth major : ℕ)
    → Consumes 1 skip
    → Consumes 1 (skip_major limits skip depth major)
unfolding skip_major
skip_major-Consumes limits skip depth major h =
    let strings = discard-Consumes (Reader.text limits) (text-Consumes limits) in
    if-Consumes 1 (major == 0) _ _ (discard-Consumes (head 0) (head-Consumes 0)) (
      if-Consumes 1 (major == 1) _ _ (discard-Consumes (head 1) (head-Consumes 1)) (
        if-Consumes 1 (major == 2) _ _ (discard-Consumes _ (bytes-Consumes limits 0 0)) (
          if-Consumes 1 (major == 3) _ _ strings (
            if-Consumes 1 (major == 4) _ _
              (>>=-Consumes 1 0 (Reader.array limits depth) _ (array-Consumes limits depth)
                (skip_values-Consumes skip h))
              (if-Consumes 1 (major == 5) _ _
                (>>=-Consumes 1 0 (Reader.map limits depth) _ (map-Consumes limits depth)
                  (skip_entries-Consumes skip h true 0))
                (if-Consumes 1 (major == 7) _ _ skip_simple-Consumes
                  (fail-Consumes 1 malformed_cbor)))))))

-- A look at the first byte of what is then consumed.
module _ {A : Type 0} (f : ℕ → Reads A) (h : (n : ℕ) → Consumes 1 (f n)) where
  peeked_local :
      (bs : Bytes) (p : ℕ) (s : Reader) (a : A)
      → (peek_major >>= f) (at bs p) ≡ ok (a, s)
      → (c : Bytes) × (bs ≡ c ++ s.rest) × (1 ≤ length c) × ReadsBack (peek_major >>= f) c a
  unfolding peek_major
  peeked_local [] p s a e = cc
  peeked_local (b ∷ bs) p s a e =
      let (c, q, l, back) = h (b / 32) (at (b ∷ bs) p) s a e in
      let (d, same) = first_consumed b bs c s.rest q l in
      (c, q, l, λ rest n. rw same (rw same at (back rest n)))

  peek_major-Consumes : Consumes 1 (peek_major >>= f)
  peek_major-Consumes r s a e = peeked_local r.rest r.position s a e

skip_at-Consumes :
    (limits : RevisionLimits) (fuel depth : ℕ) → Consumes 1 (skip_at limits fuel depth)
unfolding skip_at
skip_at-Consumes limits zero depth = λ r s a e. cc
skip_at-Consumes limits (suc fuel) depth = checked-Consumes 1 _ _ _ (
    peek_major-Consumes _ λ major.
      skip_major-Consumes limits (skip_at limits fuel (depth + 1)) depth major
        (skip_at-Consumes limits fuel (depth + 1)))

pub skip_extension-Consumes :
    (limits : RevisionLimits) (depth : ℕ) → Consumes 1 (skip_extension limits depth)
unfolding skip_extension
skip_extension-Consumes limits depth =
    skip_at-Consumes limits (suc (limits.max_nesting_depth + 1 - depth)) depth
