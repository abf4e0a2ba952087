-- ===== src/Snapshot/Bounds.antt =====
-- `decode` of src/format/snapshot_revision.cpp reads within its input, and the base that it reads is
-- shorter than the input.
use scpefe.Base.{
  Bool, Outcome, [], arith, err, false, fault, if◌then◌else◌, length, ltb, not, ok, refl, suc, true,
  zero, ℕ, ◌++◌, ◌-◌, ◌/◌, ◌==◌, ◌^◌, ◌||◌, ◌∷◌, ◌≢◌,
}
use scpefe.Cbor.Limits.{
  RevisionError, RevisionLimits, invalid_argument, limit_exceeded, malformed_cbor,
  unsupported_format,
}
use scpefe.Cbor.Reader.{boolean, expect_unsigned, finished, peek_unsigned, unsigned_integer}
use scpefe.Cbor.Reading.{Reads, fail_if, return, ◌>>=◌, ◌>>◌}
use scpefe.Snapshot.Ancestors.{validate_ancestor_graph}
use scpefe.Snapshot.Data.{SnapshotData}
use scpefe.Snapshot.Decoding.{
  as_malformed, matching_field, optional_field, read_ancestors, read_base, read_content, read_data,
  read_event_detail, read_event_type, read_ids, read_nodes, read_optional, read_parents,
  read_required, read_sealed, read_snapshot,
}
use scpefe.Snapshot.Spending.{
  >>=-Spends, Spends, Spends-suc, Spends-weaken, array-Spends, boolean-Spends, bytes-Spends,
  expect-Spends, map-Spends, map_paid, peek-Spends, return-Spends, test-Spends, text-Spends,
  then-Spends, unsigned-Spends,
}
use scpefe.Snapshot.VisitEnds.{validate_ancestor_graph-ne-fault}
use scpefe.Text.{valid_canonical_document_text}
use scpefe.Cbor.Reader

abbrev nothing : {A : Type 0} → A → ℕ
nothing a = 0

-- The bytes of the base.
abbrev weight : SnapshotData → ℕ
weight d = length d.provisional_base_revision

abbrev counted_weight : ℕ × SnapshotData → ℕ
counted_weight (n, d) = weight d

module _ (limits : RevisionLimits) where
  fixed-Spends : (n : ℕ) → Spends 0 nothing (Reader.bytes limits n 0)
  fixed-Spends n r =
      let h = bytes-Spends limits n 0 r in (h.0, λ a s e. let l = h.1 a s e in omega arith)

  read_ids-Spends : (n : ℕ) → Spends 0 nothing (read_ids limits n)
  unfolding read_ids
  read_ids-Spends zero = return-Spends 0 nothing [] (omega arith)
  read_ids-Spends (suc n) =
      then-Spends 0 nothing (Reader.bytes limits 32 0) _ (fixed-Spends 32) λ id.
        then-Spends 0 nothing (read_ids limits n) _ (read_ids-Spends n)
          λ rest. return-Spends 0 nothing (id ++ rest) (omega arith)

  read_parents-Spends : (depth : ℕ) → Spends 0 nothing (read_parents limits depth)
  unfolding read_parents
  read_parents-Spends depth =
      then-Spends 0 nothing (Reader.array limits depth) _ (array-Spends limits depth) λ count.
        then-Spends 0 nothing
          (fail_if (ltb limits.max_parent_count count || ltb ((2 ^ 64 - 1) / 32) count)
            limit_exceeded)
          _ (test-Spends _ limit_exceeded) λ u. read_ids-Spends count

  read_nodes-Spends : (n : ℕ) → Spends 0 nothing (read_nodes limits n)
  unfolding read_nodes
  read_nodes-Spends zero = return-Spends 0 nothing [] (omega arith)
  read_nodes-Spends (suc n) =
      then-Spends 0 nothing (Reader.array limits 3) _ (array-Spends limits 3) λ size.
        then-Spends 0 nothing (fail_if (not (size == 2)) malformed_cbor) _
          (test-Spends _ malformed_cbor)
          λ u. then-Spends 0 nothing (Reader.bytes limits 32 0) _ (fixed-Spends 32) λ id.
            then-Spends 0 nothing (read_parents limits 4) _ (read_parents-Spends 4) λ parents.
              then-Spends 0 nothing (read_nodes limits n) _ (read_nodes-Spends n) λ nodes.
                return-Spends 0 nothing
                  (record { revision_id = id; parent_revision_ids = parents } ∷ nodes) (omega arith)

  read_content-Spends : Spends 0 nothing (read_content limits)
  unfolding read_content
  read_content-Spends =
      then-Spends 0 nothing (Reader.map limits 2) _ (map-Spends limits 2) λ fields.
        then-Spends 0 nothing (fail_if (not (fields == 3)) malformed_cbor) _
          (test-Spends _ malformed_cbor)
          λ u1. then-Spends 0 nothing (expect_unsigned 1) _ (expect-Spends 1) λ u2.
            then-Spends 0 nothing unsigned_integer _ unsigned-Spends λ codec.
              then-Spends 0 nothing (fail_if (not (codec == 0)) unsupported_format) _
                (test-Spends _ unsupported_format)
                λ u3. then-Spends 0 nothing (expect_unsigned 2) _ (expect-Spends 2) λ u4.
                  then-Spends 0 nothing unsigned_integer _ unsigned-Spends λ size.
                    then-Spends 0 nothing (expect_unsigned 3) _ (expect-Spends 3) λ u5.
                      then-Spends 0 nothing (Reader.text limits) _ (text-Spends limits) λ content.
                        then-Spends 0 nothing
                          (fail_if
                            (not (size == length content)
                              || not (valid_canonical_document_text content))
                            malformed_cbor)
                          _ (test-Spends _ malformed_cbor)
                          λ u6. return-Spends 0 nothing content (omega arith)

  read_required-Spends : Spends 0 weight (read_required limits)
  unfolding read_required
  read_required-Spends = then-Spends 0 weight (expect_unsigned 1) _ (expect-Spends 1) λ u1.
      then-Spends 0 weight (unsigned_integer) _ (unsigned-Spends) λ version.
        then-Spends 0 weight (fail_if (not (version == 1)) unsupported_format) _
          (test-Spends (not (version == 1)) unsupported_format)
          λ u0. then-Spends 0 weight (expect_unsigned 2) _ (expect-Spends 2) λ u2.
            then-Spends 0 weight (read_parents limits 2) _ (read_parents-Spends 2) λ parents.
              then-Spends 0 weight (expect_unsigned 3) _ (expect-Spends 3) λ u3.
                then-Spends 0 weight (unsigned_integer) _ (unsigned-Spends) λ time.
                  then-Spends 0 weight (expect_unsigned 4) _ (expect-Spends 4) λ u4.
                    then-Spends 0 weight (Reader.bytes limits 16 0) _ (fixed-Spends 16) λ slot.
                      then-Spends 0 weight (expect_unsigned 5) _ (expect-Spends 5) λ u5.
                        then-Spends 0 weight (Reader.text limits) _ (text-Spends limits)
                          λ slot_name.
                            then-Spends 0 weight (expect_unsigned 6) _ (expect-Spends 6) λ u6.
                              then-Spends 0 weight (Reader.text limits) _ (text-Spends limits)
                                λ slot_email.
                                  then-Spends 0 weight (expect_unsigned 7) _ (expect-Spends 7) λ u7.
                                    then-Spends 0 weight (Reader.text limits) _ (text-Spends limits)
                                      λ client_name.
                                        then-Spends 0 weight (expect_unsigned 8) _ (expect-Spends 8)
                                          λ u8.
                                            then-Spends 0 weight (Reader.text limits) _
                                              (text-Spends limits)
                                              λ client_email.
                                                then-Spends 0 weight (expect_unsigned 9) _
                                                  (expect-Spends 9)
                                                  λ u9.
                                                    then-Spends 0 weight (Reader.text limits) _
                                                      (text-Spends limits)
                                                      λ device.
                                                        then-Spends 0 weight (expect_unsigned 10) _
                                                          (expect-Spends 10)
                                                          λ u10.
                                                            then-Spends 0 weight
                                                            (Reader.bytes limits 32 0) _
                                                            (fixed-Spends 32)
                                                            λ hash.
                                                            then-Spends 0 weight
                                                            (expect_unsigned 11) _
                                                            (expect-Spends 11)
                                                            λ u11.
                                                            then-Spends 0 weight
                                                            (read_content limits) _
                                                            (read_content-Spends)
                                                            λ content.
                                                            return-Spends 0 weight _ (omega arith)

  abbrev IsField : (SnapshotData → Reads SnapshotData) → Type 0
  IsField read = (d : SnapshotData) → Spends (weight d) weight (read d)

  optional_field-Spends :
      (k : ℕ) (read : SnapshotData → Reads SnapshotData)
      → IsField read
      → (d : ℕ × SnapshotData) → Spends (weight d.1) counted_weight (optional_field k read d)
  unfolding optional_field matching_field
  optional_field-Spends k read h (n, d) =
      either (n == 0) _ _ (return-Spends (weight d) counted_weight (n, d) (omega arith)) (
        then-Spends (weight d) counted_weight peek_unsigned _ peek-Spends λ found.
          either (found == k) _ _
            (then-Spends (weight d) counted_weight (expect_unsigned k) _ (expect-Spends k) λ u.
              >>=-Spends (weight d) weight counted_weight (read d) _ (h d)
                λ next. return-Spends (weight next) counted_weight (n - 1, next) (omega arith))
            (return-Spends (weight d) counted_weight (n, d) (omega arith)))
    where
      either :
          (b : Bool) (m n : Reads (ℕ × SnapshotData))
          → Spends (weight d) counted_weight m
          → Spends (weight d) counted_weight n
          → Spends (weight d) counted_weight (if b then m else n)
      either true m n x y = x
      either false m n x y = y

  as_malformed-Spends :
      (m : Outcome RevisionError (Unit {0})) → m ≢ fault → Spends 0 nothing (as_malformed m)
  unfolding as_malformed
  as_malformed-Spends (ok u) h r = return-Spends 0 nothing tt (omega arith) r
  as_malformed-Spends (err invalid_argument) h r = ((λ e. cc), λ a s e. absurd cc)
  as_malformed-Spends (err limit_exceeded) h r = ((λ e. cc), λ a s e. absurd cc)
  as_malformed-Spends (err malformed_cbor) h r = ((λ e. cc), λ a s e. absurd cc)
  as_malformed-Spends (err unsupported_format) h r = ((λ e. cc), λ a s e. absurd cc)
  as_malformed-Spends fault h r = absurd (h refl)

  read_ancestors-IsField : IsField (read_ancestors limits)
  unfolding read_ancestors
  read_ancestors-IsField d =
      let w = weight d in
      then-Spends w weight (Reader.array limits 2) _ (array-Spends limits 2) λ count.
        then-Spends w weight (fail_if (ltb limits.max_collection_entries count) limit_exceeded) _
          (test-Spends (ltb limits.max_collection_entries count) limit_exceeded)
          λ u1. then-Spends w weight (read_nodes limits count) _ (read_nodes-Spends count) λ nodes.
            then-Spends w weight (as_malformed (validate_ancestor_graph nodes limits)) _
              (as_malformed-Spends (validate_ancestor_graph nodes limits)
                (validate_ancestor_graph-ne-fault nodes limits))
              λ u2. return-Spends w weight _ (omega arith)

  read_sealed-IsField : IsField read_sealed
  unfolding read_sealed
  read_sealed-IsField d = then-Spends (weight d) weight boolean _ boolean-Spends λ sealed.
      then-Spends (weight d) weight (fail_if sealed malformed_cbor) _
        (test-Spends sealed malformed_cbor) λ u. return-Spends (weight d) weight _ (omega arith)

  read_base-IsField : IsField (read_base limits)
  unfolding read_base
  read_base-IsField d =
      >>=-Spends (weight d) length weight (Reader.bytes limits 0 limits.max_input_bytes) _
        (Spends-weaken 0 (weight d) length (Reader.bytes limits 0 limits.max_input_bytes)
          (omega arith) (bytes-Spends limits 0 limits.max_input_bytes))
        λ base. return-Spends (length base) weight _ (omega arith)

  read_event_type-IsField : IsField (read_event_type limits)
  unfolding read_event_type
  read_event_type-IsField d =
      then-Spends (weight d) weight (Reader.text limits) _ (text-Spends limits)
        λ type. return-Spends (weight d) weight _ (omega arith)

  read_event_detail-IsField : IsField (read_event_detail limits)
  unfolding read_event_detail
  read_event_detail-IsField d =
      then-Spends (weight d) weight (Reader.text limits) _ (text-Spends limits)
        λ detail. return-Spends (weight d) weight _ (omega arith)

  read_optional-Spends :
      (d : ℕ × SnapshotData) → Spends (weight d.1) counted_weight (read_optional limits d)
  unfolding read_optional
  read_optional-Spends d0 =
      let w = counted_weight in
      >>=-Spends (w d0) w w (optional_field 12 (read_ancestors limits) d0) _
        (optional_field-Spends 12 (read_ancestors limits) read_ancestors-IsField d0)
        λ d1.
          >>=-Spends (w d1) w w (optional_field 13 read_sealed d1) _
            (optional_field-Spends 13 read_sealed read_sealed-IsField d1)
            λ d2.
              >>=-Spends (w d2) w w (optional_field 14 (read_base limits) d2) _
                (optional_field-Spends 14 (read_base limits) read_base-IsField d2)
                λ d3.
                  >>=-Spends (w d3) w w (optional_field 15 (read_event_type limits) d3) _
                    (optional_field-Spends 15 (read_event_type limits) read_event_type-IsField d3)
                    λ d4.
                      optional_field-Spends 16 (read_event_detail limits) read_event_detail-IsField
                        d4

  -- The base is shorter than what was read.
  abbrev heavy : SnapshotData → ℕ
  heavy d = suc (weight d)

  fields_read :
      (fields : ℕ)
      → Spends 0 weight (do
        required ← read_required limits
        d ← read_optional limits (fields - 11, required)
        fail_if (not (d.0 == 0)) malformed_cbor
        return d.1)
  fields_read fields =
      >>=-Spends 0 weight weight (read_required limits) _ read_required-Spends λ required.
        >>=-Spends (weight required) counted_weight weight
          (read_optional limits (fields - 11, required)) _
          (read_optional-Spends (fields - 11, required))
          λ d.
            then-Spends (weight d.1) weight (fail_if (not (d.0 == 0)) malformed_cbor) _
              (test-Spends (not (d.0 == 0)) malformed_cbor)
              λ u. return-Spends (weight d.1) weight d.1 (omega arith)

  read_data-Spends : Spends 0 heavy (read_data limits)
  unfolding read_data
  read_data-Spends =
      >>=-Spends 0 (λ fields. 1) heavy (Reader.map limits 1) _ (map_paid limits 1)
        λ fields.
          then-Spends 1 heavy (fail_if (ltb fields 11 || ltb 16 fields) malformed_cbor) _
            (test-Spends (ltb fields 11 || ltb 16 fields) malformed_cbor)
            λ u. Spends-suc 0 weight _ (fields_read fields)

  pub read_snapshot-Spends : Spends 0 heavy (read_snapshot limits)
  unfolding read_snapshot
  read_snapshot-Spends = >>=-Spends 0 heavy heavy (read_data limits) _ read_data-Spends λ d.
      then-Spends (heavy d) heavy (λ r. fail_if (not (finished r)) malformed_cbor r) _
        (λ r. test-Spends (not (finished r)) malformed_cbor r)
        λ u. return-Spends (heavy d) heavy d (omega arith)
