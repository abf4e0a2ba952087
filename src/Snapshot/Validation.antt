-- ===== src/Snapshot/Validation.antt =====
-- `validate_data`, `decode` and `create` of src/format/snapshot_revision.cpp, which call each other
-- on the revision below a provisional one.
use mathlib.Core.Bool.{xor}
use scpefe.Base.{
  Bool, Bytes, Outcome, err, false, fault, is_empty, leb, length, not, ok, require_or, suc, true,
  zero, ℕ, ◌&&◌, ◌==◌, ◌>>=◌, ◌>>◌, ◌||◌,
}
use scpefe.Cbor.Limits.{
  RevisionError, RevisionLimits, invalid_argument, limit_exceeded, malformed_cbor,
}
use scpefe.Cbor.Reader.{bytes}
use scpefe.Cbor.Reading.{at}
use scpefe.Snapshot.Ancestors.{validate_ancestor_graph}
use scpefe.Snapshot.Data.{SnapshotData, parent_count, whole_ids}
use scpefe.Snapshot.Decoding.{read_snapshot}
use scpefe.Text.{valid_canonical_document_text, valid_utf8}

unfoldable pub sizes_fit : SnapshotData → RevisionLimits → Bool
sizes_fit d limits =
    leb (parent_count d.parent_revision_ids) limits.max_parent_count
    && leb (parent_count d.parent_revision_ids) limits.max_collection_entries
    && leb 11 limits.max_collection_entries
    && leb (length d.slot_identity_name) limits.max_text_bytes
    && leb (length d.slot_identity_email) limits.max_text_bytes
    && leb (length d.client_profile_name) limits.max_text_bytes
    && leb (length d.client_profile_email) limits.max_text_bytes
    && leb (length d.device_name) limits.max_text_bytes
    && leb (length d.event_type) limits.max_text_bytes
    && leb (length d.event_detail) limits.max_text_bytes
    && leb (length d.content) limits.max_text_bytes
    && leb 32 limits.max_byte_string_bytes
    && leb 16 limits.max_byte_string_bytes
    && leb 2 limits.max_nesting_depth

unfoldable pub texts_fit : SnapshotData → Bool
texts_fit d =
    valid_utf8 d.slot_identity_name
    && valid_utf8 d.slot_identity_email
    && valid_utf8 d.client_profile_name
    && valid_utf8 d.client_profile_email
    && valid_utf8 d.device_name
    && valid_utf8 d.event_type
    && valid_utf8 d.event_detail
    && valid_canonical_document_text d.content

-- An event has a type and a detail, and belongs to a sealed revision.
unfoldable pub event_fits : SnapshotData → Bool
event_fits d =
    not (xor (is_empty d.event_type) (is_empty d.event_detail))
    && (is_empty d.event_type || d.manually_sealed)

-- The decoding of the base is an argument.
unfoldable pub check_base :
    (Bytes → Outcome RevisionError SnapshotData)
    → RevisionLimits
    → Bytes
    → Outcome RevisionError (Unit {0})
check_base decode_base limits bytes = elim (is_empty bytes) [
  | true ↦ ok tt
  | false ↦ do
    require_or limit_exceeded (leb (length bytes) limits.max_input_bytes)
    base ← decode_base bytes
    require_or invalid_argument base.manually_sealed
]

unfoldable pub validate_with :
    (Bytes → Outcome RevisionError SnapshotData)
    → SnapshotData
    → RevisionLimits
    → Outcome RevisionError (Unit {0})
unfolding sizes_fit texts_fit event_fits check_base validate_ancestor_graph
validate_with decode_base d limits = do
  require_or invalid_argument
      (whole_ids d.parent_revision_ids && length d.slot_id == 16 && length d.content_hash == 32)
  require_or limit_exceeded (sizes_fit d limits)
  require_or invalid_argument (texts_fit d)
  validate_ancestor_graph d.ancestor_graph limits
  require_or invalid_argument (event_fits d)
  require_or invalid_argument (not (xor d.manually_sealed (is_empty d.provisional_base_revision)))
  check_base decode_base limits d.provisional_base_revision

-- What `decode` makes of the verdict on the data that it read.
unfoldable pub accepted :
    SnapshotData → Outcome RevisionError (Unit {0}) → Outcome RevisionError SnapshotData
accepted d verdict = elim verdict [
  | ok u ↦ ok d
  | err invalid_argument ↦ err malformed_cbor
  | err e ↦ err e
  | fault ↦ fault
]

unfoldable pub decode_at : ℕ → RevisionLimits → Bytes → Outcome RevisionError SnapshotData
unfolding read_snapshot validate_with accepted
decode_at zero limits input = fault
decode_at (suc fuel) limits input = elim (read_snapshot limits (at input 0)) [
  | ok (d, r) ↦ accepted d (validate_with (decode_at fuel limits) d limits)
  | err e ↦ err e
  | fault ↦ fault
]

-- A base is shorter than the bytes that it stands in.
unfoldable pub decode_snapshot : RevisionLimits → Bytes → Outcome RevisionError SnapshotData
unfolding decode_at
decode_snapshot limits input = decode_at (suc (length input)) limits input

unfoldable pub create : SnapshotData → RevisionLimits → Outcome RevisionError SnapshotData
unfolding validate_with decode_snapshot
create d limits = elim (validate_with (decode_snapshot limits) d limits) [
  | ok u ↦ ok d
  | err e ↦ err e
  | fault ↦ fault
]
