-- ===== src/Snapshot/RoundTrip.antt =====
-- `SnapshotRevision::create`, `encode` and `decode` of src/format/snapshot_revision.cpp together.
use scpefe.Base.{
  All, Bool, Bytes, Outcome, [], ap, arith, err, false, fault, if◌then◌else◌, is_empty, length,
  length-append, ok, refl, suc, true, ◌++◌, ◌+◌, ◌<◌, ◌^◌, ◌∙◌, ◌∷◌, ◌≡◌, ◌≤◌,
}
use scpefe.Cbor.Limits.{RevisionError, default_limits}
use scpefe.Cbor.Writer.{header, put_boolean, put_map, put_text, put_unsigned, ◌▷◌}
use scpefe.Snapshot.Data.{SnapshotData}
use scpefe.Snapshot.Encoding.{
  encode, optional_fields, put_ancestors, put_event, put_provisional, put_required,
}
use scpefe.Snapshot.Fuel.{decode_at-le, decoded, validate_with-grows}
use scpefe.Snapshot.Validated.{validate_with-IsReadable}
use scpefe.Snapshot.Validation.{accepted, create, decode_at, decode_snapshot, validate_with}
use scpefe.Snapshot.Wholes.{read_snapshot-encode}

longer : (output more : Bytes) → length output ≤ length (output ++ more)
longer output more = omega (arith, length-append output more)

longer_if :
    (b : Bool) (output more : Bytes)
    → length output ≤ length more
    → length output ≤ length (if b then output else more)
longer_if true output more h = omega arith
longer_if false output more h = h

put_text-length : (t output : Bytes) → length output ≤ length (put_text t output)
put_text-length t output =
    omega (arith, longer output (header 3 (length t)), longer (output ++ header 3 (length t)) t)

put_event-length : (d : SnapshotData) (output : Bytes) → length output ≤ length (put_event d output)
unfolding put_event
put_event-length d output =
    let typed = put_text d.event_type (put_unsigned 15 output) in
    longer_if (is_empty d.event_type) output (put_text d.event_detail (put_unsigned 16 typed)) (
      omega (
        arith,
        longer output (header 0 15),
        put_text-length d.event_type (put_unsigned 15 output),
        longer typed (header 0 16),
        put_text-length d.event_detail (put_unsigned 16 typed),
      ))

put_provisional-length :
    (d : SnapshotData) (output : Bytes)
    → d.manually_sealed ≡ false
    → length d.provisional_base_revision < length (put_provisional d output)
unfolding put_provisional
put_provisional-length d output h =
    let base = d.provisional_base_revision in
    let flagged = put_boolean false (put_unsigned 13 output) in
    let keyed = put_unsigned 14 flagged in
    rw h (
      omega (
        arith,
        length-append (keyed ++ header 2 (length base)) base,
        longer keyed (header 2 (length base)),
        longer flagged (header 0 14),
        length-append (put_unsigned 13 output) (244 ∷ []),
      ))

-- A base is shorter than the encoding that it stands in.
base-shorter :
    (d : SnapshotData)
    → d.manually_sealed ≡ false
    → length d.provisional_base_revision < length (encode d)
unfolding encode
base-shorter d h =
    let front =
      [] ▷ put_map (11 + optional_fields d) ▷ put_required d ▷ put_ancestors d.ancestor_graph in
    omega (arith, put_provisional-length d front h, put_event-length d (put_provisional d front))

created-ok :
    (d : SnapshotData) (verdict : Outcome RevisionError (Unit {0}))
    → (elim verdict [ ok u ↦ ok d | err e ↦ err e | fault ↦ fault ]) ≡ ok d
    → verdict ≡ ok tt
created-ok d (ok u) h = refl
created-ok d (err e) h = cc
created-ok d fault h = cc

-- A revision that was created with the default limits, whose time has 64 bits and whose nodes have
-- ids of 32 bytes, is decoded from its encoding as it was.
pub decode_snapshot-encode :
    (d : SnapshotData)
    → d.timestamp_ms < 2 ^ 64
    → All (λ node. 32 ≡ length node.revision_id) d.ancestor_graph
    → create d default_limits ≡ ok d
    → decode_snapshot default_limits (encode d) ≡ ok d
unfolding create decode_snapshot decode_at accepted
decode_snapshot-encode d time sizes h =
    let l = default_limits in
    let valid : validate_with (decode_snapshot l) d l ≡ ok tt = created-ok d _ h in
    let readable = validate_with-IsReadable (decode_snapshot l) d time sizes valid in
    let base = d.provisional_base_revision in
    let shorter : is_empty base ≡ false → length base < length (encode d) =
      λ e. base-shorter d (readable.base ∙ e) in
    let again : validate_with (decode_at (length (encode d)) l) d l ≡ ok tt =
      validate_with-grows (decode_snapshot l) (decode_at (length (encode d)) l) l d
        (λ e below. decode_at-le l (suc (length base)) (length (encode d)) base below (shorter e))
        valid in
    ap (decoded l (decode_at (length (encode d)) l)) (read_snapshot-encode d readable)
    ∙ ap (accepted d) again
