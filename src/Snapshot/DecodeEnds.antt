-- ===== src/Snapshot/DecodeEnds.antt =====
-- `SnapshotRevision::decode` and `create` of src/format/snapshot_revision.cpp end, and stay within what
-- the language defines.
use mathlib.Core.Bool.{xor}
use scpefe.Base.{
  Bytes, Outcome, [], arith, err, fault, first-ne-fault, is_empty, length, not, ok, refl,
  require_or, required-ne-fault, suc, zero, ℕ, ◌<◌, ◌>>=◌, ◌∷◌, ◌≡◌, ◌≢◌,
}
use scpefe.Cbor.Limits.{
  RevisionError, RevisionLimits, invalid_argument, limit_exceeded, malformed_cbor,
  unsupported_format,
}
use scpefe.Cbor.Reading.{Reader, at}
use scpefe.Snapshot.Ancestors.{validate_ancestor_graph}
use scpefe.Snapshot.Bounds.{read_snapshot-Spends}
use scpefe.Snapshot.Data.{SnapshotData}
use scpefe.Snapshot.Decoding.{read_snapshot}
use scpefe.Snapshot.Fuel.{decoded}
use scpefe.Snapshot.Validation.{
  accepted, check_base, create, decode_at, decode_snapshot, event_fits, sizes_fit, texts_fit,
  validate_with,
}
use scpefe.Snapshot.VisitEnds.{validate_ancestor_graph-ne-fault}

sealed-ne-fault :
    (m : Outcome RevisionError SnapshotData)
    → m ≢ fault
    → (m >>= λ base. require_or invalid_argument base.manually_sealed) ≢ fault
sealed-ne-fault (ok base) h e = ground arith
sealed-ne-fault (err x) h e = cc
sealed-ne-fault fault h e = h refl

module _ (limits : RevisionLimits) where
  check_base-ne-fault :
      (f : Bytes → Outcome RevisionError SnapshotData) (base : Bytes)
      → f base ≢ fault
      → check_base f limits base ≢ fault
  unfolding check_base
  check_base-ne-fault f [] h = λ e. cc
  check_base-ne-fault f (x ∷ xs) h =
      required-ne-fault _ limit_exceeded _ (sealed-ne-fault (f (x ∷ xs)) h)

  validate_with-ne-fault :
      (f : Bytes → Outcome RevisionError SnapshotData) (d : SnapshotData)
      → f d.provisional_base_revision ≢ fault
      → validate_with f d limits ≢ fault
  unfolding validate_with
  validate_with-ne-fault f d h =
      let base = check_base-ne-fault f d.provisional_base_revision h in
      let last =
        required-ne-fault (not (xor d.manually_sealed (is_empty d.provisional_base_revision)))
          invalid_argument _ base in
      let event = required-ne-fault (event_fits d) invalid_argument _ last in
      let graph =
        first-ne-fault (validate_ancestor_graph d.ancestor_graph limits) _
          (validate_ancestor_graph-ne-fault d.ancestor_graph limits) event in
      let texts = required-ne-fault (texts_fit d) invalid_argument _ graph in
      let sizes = required-ne-fault (sizes_fit d limits) limit_exceeded _ texts in
      required-ne-fault _ invalid_argument _ sizes

  accepted-ne-fault :
      (d : SnapshotData) (verdict : Outcome RevisionError (Unit {0}))
      → verdict ≢ fault
      → accepted d verdict ≢ fault
  unfolding accepted
  accepted-ne-fault d (ok u) h e = cc
  accepted-ne-fault d (err invalid_argument) h e = cc
  accepted-ne-fault d (err limit_exceeded) h e = cc
  accepted-ne-fault d (err malformed_cbor) h e = cc
  accepted-ne-fault d (err unsupported_format) h e = cc
  accepted-ne-fault d fault h e = h refl

  decoded-ne-fault :
      (f : Bytes → Outcome RevisionError SnapshotData)
      (m : Outcome RevisionError (SnapshotData × Reader))
      → m ≢ fault
      → ((d : SnapshotData) (r : Reader) → m ≡ ok (d, r) → f d.provisional_base_revision ≢ fault)
      → decoded limits f m ≢ fault
  decoded-ne-fault f (ok (d, r)) h k =
      accepted-ne-fault d (validate_with f d limits) (validate_with-ne-fault f d (k d r refl))
  decoded-ne-fault f (err x) h k = λ e. cc
  decoded-ne-fault f fault h k = absurd (h refl)

  decode_at-ne-fault :
      (fuel : ℕ) (input : Bytes) → length input < fuel → decode_at fuel limits input ≢ fault
  unfolding decode_at
  decode_at-ne-fault zero input h = absurd (omega arith)
  decode_at-ne-fault (suc fuel) input h =
      let spends = read_snapshot-Spends limits (at input 0) in
      decoded-ne-fault (decode_at fuel limits) (read_snapshot limits (at input 0)) spends.0 λ d r e.
        let shorter = spends.1 d r e in
        decode_at-ne-fault fuel d.provisional_base_revision (omega arith)

  -- Whatever the input, the data and the limits, the decoding of a snapshot revision and the creation
  -- of one return or throw a failure: they read within the input, the visits of the ancestors end,
  -- and so does the decoding of bases within bases.
  pub decode_snapshot-create-ne-fault :
      (input : Bytes) (d : SnapshotData)
      → (decode_snapshot limits input ≢ fault) × (create d limits ≢ fault)
  unfolding decode_snapshot create
  decode_snapshot-create-ne-fault input d = (
    decode_at-ne-fault (suc (length input)) input (omega arith),
    λ e.
        let verdict = validate_with-ne-fault (decode_snapshot limits) d (
          decode_at-ne-fault (suc (length d.provisional_base_revision)) d.provisional_base_revision
            (omega arith)) in
        ground (arith, verdict),
  )
