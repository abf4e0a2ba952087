-- ===== src/Graph/Body.antt =====
-- `parse_immutable`, `parse_body` and `parse_record` of src/format/revision_graph.cpp. `hash`
-- stands for `blake2b_256` of src/format/blake2b.cpp.
use mathlib.Core.Bool.{xor}
use scpefe.Base.{
  Bool, Bytes, List, Option, [], bytes_eq, false, if◌then◌else◌, is_empty, leb, length, ltb, none,
  not, some, suc, true, zero, ℕ, ◌&&◌, ◌++◌, ◌+◌, ◌-◌, ◌==◌, ◌||◌, ◌∷◌,
}
use scpefe.Cbor.Limits.{RevisionLimits, limit_exceeded, malformed_cbor, unsupported_format}
use scpefe.Cbor.Reader.{boolean, bytes, text, unsigned_integer}
use scpefe.Cbor.Reading.{Reads, fail, fail_if, return, ◌>>=◌, ◌>>◌}
use scpefe.Graph.Parsing.{captured, has, immutable_fields, is_number, read_fields, set}
use scpefe.Graph.Records.{Body, Immutable, RevisionId, RevisionRecord, Segment}
use scpefe.Graph.Slots.{key, read_id, zero_session}
use scpefe.Text.{valid_canonical_document_text}
use scpefe.Cbor.Reader

-- "SCPEFE-BODY-V3\0"
abbrev pub body_prefix : Bytes
body_prefix =
    0x53 ∷ 0x43 ∷ 0x50 ∷ 0x45 ∷ 0x46 ∷ 0x45 ∷ 0x2d ∷ 0x42 ∷ 0x4f ∷ 0x44 ∷ 0x59 ∷ 0x2d ∷ 0x56 ∷ 0x33
    ∷ 0 ∷ []

-- "SCPEFE-REV-ID-V3\0"
abbrev pub id_prefix : Bytes
id_prefix =
    0x53 ∷ 0x43 ∷ 0x50 ∷ 0x45 ∷ 0x46 ∷ 0x45 ∷ 0x2d ∷ 0x52 ∷ 0x45 ∷ 0x56 ∷ 0x2d ∷ 0x49 ∷ 0x44 ∷ 0x2d
    ∷ 0x56 ∷ 0x33 ∷ 0 ∷ []

-- Type 0 copies a range of the parent's text, type 1 inserts text.
unfoldable pub read_copy : Reads Segment
read_copy = do
  start ← unsigned_integer
  count ← unsigned_integer
  fail_if (count == 0) malformed_cbor
  return (record { inserts = false; start = start; count = count; text = [] })

unfoldable pub read_insert : RevisionLimits → Reads Segment
read_insert limits = do
  bytes ← Reader.bytes limits 0 limits.max_text_bytes
  fail_if (is_empty bytes) malformed_cbor
  return (record { inserts = true; start = 0; count = length bytes; text = bytes })

unfoldable pub read_segment : RevisionLimits → Reads Segment
unfolding read_copy read_insert
read_segment limits = do
  fields ← Reader.array limits 7
  type ← unsigned_integer
  if type == 0 && fields == 3
      then read_copy
      else if type == 1 && fields == 2
      then read_insert limits
      else fail unsupported_format

-- The segments of a delta of `total` bytes, of which `inserted` are accounted for. The difference
-- does not wrap, since `inserted` stays within `total`.
unfoldable pub read_segments : RevisionLimits → ℕ → ℕ → ℕ → List Segment → Reads (List Segment)
unfolding read_segment
read_segments limits zero total inserted segments = do
  fail_if (not (inserted == total)) malformed_cbor
  return segments
read_segments limits (suc n) total inserted segments = do
  segment ← read_segment limits
  fail_if (ltb (total - inserted) segment.count) malformed_cbor
  read_segments limits n total (inserted + segment.count) (segments ++ (segment ∷ []))

unfoldable pub is_whole : ℕ → Bool
is_whole storage = storage == 1 || storage == 3

unfoldable pub read_whole : RevisionLimits → ℕ → Reads Body
read_whole limits total = do
  bytes ← Reader.bytes limits 0 limits.max_text_bytes
  fail_if (not (length bytes == total)) malformed_cbor
  fail_if (not (valid_canonical_document_text bytes)) malformed_cbor
  return (record { size = total; text = bytes; segments = [] })

unfoldable pub read_delta : RevisionLimits → ℕ → Reads Body
unfolding read_segments
read_delta limits total = do
  count ← Reader.array limits 6
  parts ← read_segments limits count total 0 []
  return (record { size = total; text = []; segments = parts })

unfoldable pub parse_body : RevisionLimits → ℕ → Reads Body
unfolding is_whole read_whole read_delta
parse_body limits storage = do
  fields ← Reader.array limits 5
  fail_if (not (fields == 3)) malformed_cbor
  version ← unsigned_integer
  fail_if (not (version == 0)) unsupported_format
  size ← unsigned_integer
  fail_if (ltb limits.max_text_bytes size) limit_exceeded
  if is_whole storage then read_whole limits size else read_delta limits size

-- The optional fields of a record.
pub record Tail : Type 0 where
  pub body : Option (Body × Bytes)
  pub provisional : Bool
  pub resolved_by : Option RevisionId
  pub foreign : Bool

abbrev pub no_tail : Tail
no_tail = record { body = none; provisional = false; resolved_by = none; foreign = false }

unfoldable pub read_true : Reads (Unit {0})
read_true = do value ← boolean; fail_if (not value) malformed_cbor

-- A digest that was not read is zero.
abbrev pub is_digest : Option Bytes → Bytes → Bool
is_digest none found = bytes_eq (zero_session ++ zero_session) found
is_digest (some digest) found = bytes_eq digest found

abbrev pub has_body : ℕ → Bool
has_body storage = leb 1 storage && leb storage 3

-- The tests behind the loop of `parse_record`.
unfoldable pub record_fits : Immutable → ℕ → Tail → Bool
record_fits x storage t =
    not (xor (has t.body) (has_body storage))
    && not (is_number x.kind 0 && not (is_whole storage || storage == 4 || storage == 5))
    && not
        (is_number x.kind 1 && not (storage == 2 || storage == 3 || storage == 4 || storage == 5))
    && not (is_number x.kind 2 && not (storage == 0 || storage == 5))
    && not (xor t.foreign (storage == 5))
    && not (xor t.foreign (has t.resolved_by))
    && not (t.foreign && t.provisional)
    && not (is_number x.kind 2 && t.provisional)

module _ (hash : Bytes → Bytes) (limits : RevisionLimits) where
  unfoldable pub parse_immutable : RevisionId → Reads (Immutable × Bytes)
  unfolding captured immutable_fields
  parse_immutable id = do
    found ← captured (immutable_fields limits)
    fail_if (not (bytes_eq (hash (id_prefix ++ found.1)) id)) malformed_cbor
    return found

  unfoldable pub body_field : ℕ → Immutable → Tail → Reads Tail
  unfolding captured parse_body
  body_field storage x t = do
    fail_if (not (has_body storage)) malformed_cbor
    found ← captured (parse_body limits storage)
    fail_if (not (storage == 3) && not (is_digest x.body_digest (hash (body_prefix ++ found.1))))
        malformed_cbor
    return (record t { body = some found })

  unfoldable pub tail_field : ℕ → Immutable → ℕ → Tail → Reads Tail
  unfolding body_field read_true read_id
  tail_field storage x k t =
      if k == 4
      then body_field storage x t
      else if k == 5
      then set read_true (λ v. record t { provisional = true })
      else if k == 6
      then set (read_id limits) (λ v. record t { resolved_by = some v })
      else if k == 7
      then set read_true (λ v. record t { foreign = true })
      else fail unsupported_format

  unfoldable pub record_fields : Reads RevisionRecord
  unfolding read_id key parse_immutable read_fields tail_field record_fits
  record_fields = do
    fields ← Reader.map limits 3
    fail_if (ltb fields 3 || ltb 7 fields) malformed_cbor
    k1 ← key 0 1
    id ← read_id limits
    k2 ← key k1 2
    x ← parse_immutable id
    k3 ← key k2 3
    storage ← unsigned_integer
    fail_if (ltb 5 storage) unsupported_format
    t ← read_fields (tail_field storage x.0) (fields - 3) k3 no_tail
    fail_if (not (record_fits x.0 storage t)) malformed_cbor
    return (record {
      id = id;
      fields = x.0;
      immutable_cbor = x.1;
      storage = storage;
      body = t.body;
      provisional = t.provisional;
      resolved_by = t.resolved_by;
      foreign = t.foreign;
      record_cbor = [];
      text_available = false;
    })

  unfoldable pub parse_record : Reads RevisionRecord
  unfolding captured record_fields
  parse_record = do
    found ← captured record_fields
    return (record found.0 { record_cbor = found.1 })
