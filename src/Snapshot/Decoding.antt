-- ===== src/Snapshot/Decoding.antt =====
-- `decode`, `validate_data` and `create` of src/format/snapshot_revision.cpp.
use scpefe.Base.{
  Bytes, List, Outcome, [], err, fault, if◌then◌else◌, length, ltb, not, ok, suc, zero, ℕ, ◌++◌,
  ◌-◌, ◌/◌, ◌==◌, ◌^◌, ◌||◌, ◌∷◌,
}
use scpefe.Cbor.Limits.{
  RevisionError, RevisionLimits, invalid_argument, limit_exceeded, malformed_cbor,
  unsupported_format,
}
use scpefe.Cbor.Reader.{boolean, expect_unsigned, finished, peek_unsigned, unsigned_integer}
use scpefe.Cbor.Reading.{Reads, fail_if, return, ◌>>=◌, ◌>>◌}
use scpefe.Snapshot.Ancestors.{validate_ancestor_graph}
use scpefe.Snapshot.Data.{Node, SnapshotData, no_data}
use scpefe.Text.{valid_canonical_document_text}
use scpefe.Cbor.Reader

unfoldable pub read_ids : RevisionLimits → ℕ → Reads Bytes
read_ids limits zero = return []
read_ids limits (suc n) = do
  id ← Reader.bytes limits 32 0
  rest ← read_ids limits n
  return (id ++ rest)

-- `size_t` has the 64 bits of the count.
unfoldable pub read_parents : RevisionLimits → ℕ → Reads Bytes
unfolding read_ids
read_parents limits depth = do
  count ← Reader.array limits depth
  fail_if (ltb limits.max_parent_count count || ltb ((2 ^ 64 - 1) / 32) count) limit_exceeded
  read_ids limits count

unfoldable pub read_nodes : RevisionLimits → ℕ → Reads (List Node)
unfolding read_parents
read_nodes limits zero = return []
read_nodes limits (suc n) = do
  size ← Reader.array limits 3
  fail_if (not (size == 2)) malformed_cbor
  id ← Reader.bytes limits 32 0
  parents ← read_parents limits 4
  nodes ← read_nodes limits n
  return (record { revision_id = id; parent_revision_ids = parents } ∷ nodes)

-- The failure of a test on what was read.
unfoldable pub as_malformed : Outcome RevisionError (Unit {0}) → Reads (Unit {0})
as_malformed m r = elim m [
  | ok u ↦ ok (tt, r)
  | err invalid_argument ↦ err malformed_cbor
  | err e ↦ err e
  | fault ↦ fault
]

unfoldable pub read_content : RevisionLimits → Reads Bytes
unfolding expect_unsigned
read_content limits = do
  fields ← Reader.map limits 2
  fail_if (not (fields == 3)) malformed_cbor
  expect_unsigned 1
  codec ← unsigned_integer
  fail_if (not (codec == 0)) unsupported_format
  expect_unsigned 2
  size ← unsigned_integer
  expect_unsigned 3
  content ← Reader.text limits
  fail_if (not (size == length content) || not (valid_canonical_document_text content))
      malformed_cbor
  return content

-- The fields 1 to 11.
unfoldable pub read_required : RevisionLimits → Reads SnapshotData
unfolding expect_unsigned read_parents read_content
read_required limits = do
  expect_unsigned 1
  version ← unsigned_integer
  fail_if (not (version == 1)) unsupported_format
  expect_unsigned 2
  parents ← read_parents limits 2
  expect_unsigned 3
  time ← unsigned_integer
  expect_unsigned 4
  slot ← Reader.bytes limits 16 0
  expect_unsigned 5
  slot_name ← Reader.text limits
  expect_unsigned 6
  slot_email ← Reader.text limits
  expect_unsigned 7
  client_name ← Reader.text limits
  expect_unsigned 8
  client_email ← Reader.text limits
  expect_unsigned 9
  device ← Reader.text limits
  expect_unsigned 10
  hash ← Reader.bytes limits 32 0
  expect_unsigned 11
  content ← read_content limits
  return (record no_data {
    parent_revision_ids = parents;
    timestamp_ms = time;
    slot_id = slot;
    slot_identity_name = slot_name;
    slot_identity_email = slot_email;
    client_profile_name = client_name;
    client_profile_email = client_email;
    device_name = device;
    content_hash = hash;
    content = content;
  })

-- A field whose key was looked at is read if it is field `k`; `remaining` is counted down.
unfoldable pub matching_field :
    ℕ → (SnapshotData → Reads SnapshotData) → ℕ × SnapshotData → ℕ → Reads (ℕ × SnapshotData)
unfolding expect_unsigned
matching_field k read (remaining, d) found =
    if found == k
    then (do expect_unsigned k; next ← read d; return (remaining - 1, next))
    else return (remaining, d)

-- The next field, if fields remain.
unfoldable pub optional_field :
    ℕ → (SnapshotData → Reads SnapshotData) → ℕ × SnapshotData → Reads (ℕ × SnapshotData)
unfolding peek_unsigned matching_field
optional_field k read (remaining, d) =
    if remaining == 0
    then return (remaining, d)
    else peek_unsigned >>= matching_field k read (remaining, d)

unfoldable pub read_ancestors : RevisionLimits → SnapshotData → Reads SnapshotData
unfolding read_nodes as_malformed validate_ancestor_graph
read_ancestors limits d = do
  count ← Reader.array limits 2
  fail_if (ltb limits.max_collection_entries count) limit_exceeded
  nodes ← read_nodes limits count
  as_malformed (validate_ancestor_graph nodes limits)
  return (record d { ancestor_graph = nodes })

unfoldable pub read_sealed : SnapshotData → Reads SnapshotData
read_sealed d = do
  sealed ← boolean
  fail_if sealed malformed_cbor
  return (record d { manually_sealed = sealed })

unfoldable pub read_base : RevisionLimits → SnapshotData → Reads SnapshotData
read_base limits d = do
  base ← Reader.bytes limits 0 limits.max_input_bytes
  return (record d { provisional_base_revision = base })

unfoldable pub read_event_type : RevisionLimits → SnapshotData → Reads SnapshotData
read_event_type limits d = do type ← Reader.text limits; return (record d { event_type = type })

unfoldable pub read_event_detail : RevisionLimits → SnapshotData → Reads SnapshotData
read_event_detail limits d = do
  detail ← Reader.text limits
  return (record d { event_detail = detail })

-- Nothing sets `manually_sealed` to false before field 13 is read, so its test is left out.
unfoldable pub read_optional : RevisionLimits → ℕ × SnapshotData → Reads (ℕ × SnapshotData)
unfolding optional_field read_ancestors read_sealed read_base read_event_type read_event_detail
read_optional limits d0 = do
  d1 ← optional_field 12 (read_ancestors limits) d0
  d2 ← optional_field 13 read_sealed d1
  d3 ← optional_field 14 (read_base limits) d2
  d4 ← optional_field 15 (read_event_type limits) d3
  optional_field 16 (read_event_detail limits) d4

unfoldable pub read_data : RevisionLimits → Reads SnapshotData
unfolding read_required read_optional
read_data limits = do
  fields ← Reader.map limits 1
  fail_if (ltb fields 11 || ltb 16 fields) malformed_cbor
  required ← read_required limits
  d ← read_optional limits (fields - 11, required)
  fail_if (not (d.0 == 0)) malformed_cbor
  return d.1

unfoldable pub read_snapshot : RevisionLimits → Reads SnapshotData
unfolding read_data finished
read_snapshot limits = do
  d ← read_data limits
  _ ← (λ r. fail_if (not (finished r)) malformed_cbor r)
  return d
