-- ===== src/Graph/Locality.antt =====
-- A part that src/format/revision_graph.cpp decodes is decoded again wherever its bytes stand.
use scpefe.Base.{
  Bytes, Outcome-cases, arith, inl, inr, length, ok, take-append_length, ◌++◌, ◌+◌, ◌-◌, ◌≡◌,
}
use scpefe.Cbor.Items.{ReadsBack}
use scpefe.Cbor.Locality.{
  >>=-Consumes, Consumes, Consumes-weaken, array-Consumes, boolean-Consumes, bytes-Consumes,
  checked-Consumes, fail-Consumes, map-Consumes, return-Consumes, skip_extension-Consumes,
  text-Consumes, unsigned_integer-Consumes,
}
use scpefe.Cbor.Reading.{Reader, Reads, at}
use scpefe.Graph.Closure.{IsClosed}
use scpefe.Graph.Parsing.{captured}

abbrev pub IsLocal : (A : Type 0) → Reads A → Type 0
IsLocal A m = Consumes 0 m

pub captured_back :
    {A : Type 0} (m : Reads A) (c : Bytes) (a : A)
    → ReadsBack m c a
    → ReadsBack (captured m) c (a, c)
unfolding captured
captured_back m c a h rest n =
    let size : n + length c - n ≡ length c = omega arith in
    ground (arith, h rest n, size, take-append_length c rest)

-- A call that returns has moved the position behind the bytes that it consumed.
consumed_position :
    {A : Type 0} (m : Reads A) (r s : Reader) (a : A) (c : Bytes)
    → m r ≡ ok (a, s)
    → r.rest ≡ c ++ s.rest
    → ReadsBack m c a
    → s.position ≡ r.position + length c
consumed_position m r s a c e q back =
    let again = back s.rest r.position in
    let same : m (at r.rest r.position) ≡ ok (a, at s.rest (r.position + length c)) = rw q again in
    ground arith

-- What is captured are the bytes from which the value is read.
pub captured-eq-ok :
    {A : Type 0} (m : Reads A) (r s : Reader) (a : A) (b : Bytes)
    → IsLocal A m
    → captured m r ≡ ok ((a, b), s)
    → (r.rest ≡ b ++ s.rest) × ReadsBack m b a
unfolding captured
captured-eq-ok m r s a b h e = elim (Outcome-cases (m r)) [
  | inr failed ↦ absurd (ground arith)
  | inl ((x, t), q) ↦
      let (c, whole, l, back) = h r t x q in
      let moved = consumed_position m r t x c q whole back in
      let size : t.position - r.position ≡ length c = omega arith in
      let bytes : b ≡ c = ground (arith, size, whole, take-append_length c t.rest) in
      let value : a ≡ x = ground arith in (ground (arith, bytes, whole), rw (bytes, value) back)
]

captured-IsLocal : (A : Type 0) (m : Reads A) → IsLocal A m → IsLocal (A × Bytes) (captured m)
captured-IsLocal A m h r s (a, b) e =
    let (q, back) = captured-eq-ok m r s a b h e in (b, q, omega arith, captured_back m b a back)

pub IsLocal-IsClosed : IsClosed IsLocal
IsLocal-IsClosed = record {
  returns = λ A a. return-Consumes a;
  fails = λ A x. fail-Consumes 0 x;
  binds = λ A B m f h g. >>=-Consumes 0 0 m f h g;
  checks = λ A b x m h. checked-Consumes 0 b x m h;
  captures = captured-IsLocal;
  unsigneds = Consumes-weaken 1 0 _ (omega arith) unsigned_integer-Consumes;
  booleans = Consumes-weaken 1 0 _ (omega arith) boolean-Consumes;
  texts = λ limits. Consumes-weaken 1 0 _ (omega arith) (text-Consumes limits);
  strings = λ limits required maximum.
      Consumes-weaken 1 0 _ (omega arith) (bytes-Consumes limits required maximum);
  arrays = λ limits depth. Consumes-weaken 1 0 _ (omega arith) (array-Consumes limits depth);
  maps = λ limits depth. Consumes-weaken 1 0 _ (omega arith) (map-Consumes limits depth);
  extensions =
      λ limits depth. Consumes-weaken 1 0 _ (omega arith) (skip_extension-Consumes limits depth);
}
