-- ===== src/Graph/RecordClosure.antt =====
-- Records of src/format/revision_graph.cpp: a property that the combinators keep holds of
-- `parse_record`.
use scpefe.Base.{Bytes, List, [], length, ltb, not, some, suc, true, zero, ℕ, ◌&&◌, ◌-◌, ◌==◌}
use scpefe.Cbor.Limits.{RevisionLimits, limit_exceeded, malformed_cbor, unsupported_format}
use scpefe.Cbor.Reader.{boolean, text, unsigned_integer}
use scpefe.Cbor.Reading.{Reads}
use scpefe.Graph.Body.{
  Tail, body_field, is_whole, no_tail, parse_body, parse_immutable, parse_record, read_copy,
  read_delta, read_insert, read_segment, read_segments, read_true, read_whole, record_fields,
  tail_field,
}
use scpefe.Graph.Closure.{
  IsClosed, check_closed, event_field_closed, if_closed, key_closed, read_fields_closed,
  read_id_closed, read_slot_closed, read_time_closed, set_closed, tested_closed,
}
use scpefe.Graph.Parsing.{
  captured, event_field, immutable_field, immutable_fields, merge_sources, parse_event_details,
  read_fields, read_kind, read_sources,
}
use scpefe.Graph.Records.{Immutable, RevisionId, Segment, no_facts, no_fields}
use scpefe.Graph.Slots.{key, read_id}
use scpefe.Text.{valid_canonical_document_text}
use scpefe.Cbor.Reader

module _ (P : (A : Type 0) → Reads A → Type 0) (laws : IsClosed P) where
  parse_event_details_closed : (limits : RevisionLimits) → P _ (parse_event_details limits)
  unfolding parse_event_details
  parse_event_details_closed limits =
      laws.binds _ _ (Reader.map limits 4) _ (laws.maps limits 4) λ count.
        read_fields_closed P laws (event_field limits) count 0 no_facts
          (event_field_closed P laws limits)

  read_sources_closed :
      (limits : RevisionLimits) (n : ℕ) (xs : List RevisionId) → P _ (read_sources limits n xs)
  unfolding read_sources
  read_sources_closed limits zero xs = laws.returns _ xs
  read_sources_closed limits (suc n) xs =
      laws.binds _ _ (read_id limits) _ (read_id_closed P laws limits)
        λ id. laws.checks _ _ _ _ (read_sources_closed limits n _)

  merge_sources_closed : (limits : RevisionLimits) → P _ (merge_sources limits)
  unfolding merge_sources
  merge_sources_closed limits =
      laws.binds _ _ (Reader.array limits 5) _ (laws.arrays limits 5)
        λ size. laws.checks _ _ _ _ (read_sources_closed limits size [])

  read_kind_closed : P _ read_kind
  unfolding read_kind
  read_kind_closed = tested_closed P laws _ _

  immutable_field_closed :
      (limits : RevisionLimits) (k : ℕ) (x : Immutable) → P _ (immutable_field limits k x)
  unfolding immutable_field
  immutable_field_closed limits k x =
      let id = read_id_closed P laws limits in
      let text = laws.texts limits in
      if_closed P laws (k == 1) _ _
        (set_closed P laws _ (λ v. record x { kind = some v }) read_kind_closed)
        (if_closed P laws (k == 2) _ _
          (set_closed P laws _ (λ v. record x { previous = some v }) id)
          (if_closed P laws (k == 3) _ _
            (set_closed P laws _ (λ v. record x { content_parent = some v }) id)
            (if_closed P laws (k == 4) _ _
              (set_closed P laws _ (λ v. record x { merge_sources = some v })
                (merge_sources_closed limits))
              (if_closed P laws (k == 5) _ _
                (set_closed P laws _ (λ v. record x { timestamp_ms = some v })
                  (read_time_closed P laws))
                (if_closed P laws (k == 6) _ _
                  (set_closed P laws _ (λ v. record x { actor_slot = some v })
                    (read_slot_closed P laws limits))
                  (if_closed P laws (k == 7) _ _
                    (set_closed P laws _ (λ v. record x { actor_name = some v }) text)
                    (if_closed P laws (k == 8) _ _
                      (set_closed P laws _ (λ v. record x { actor_email = some v }) text)
                      (if_closed P laws (k == 9) _ _
                        (set_closed P laws _ (λ v. record x { client_name = some v }) text)
                        (if_closed P laws (k == 10) _ _
                          (set_closed P laws _ (λ v. record x { client_email = some v }) text)
                          (if_closed P laws (k == 11) _ _
                            (set_closed P laws _ (λ v. record x { device = some v }) text)
                            (if_closed P laws (k == 12) _ _
                              (set_closed P laws _ (λ v. record x { content_hash = some v }) id)
                              (if_closed P laws (k == 13) _ _
                                (set_closed P laws _ (λ v. record x { body_digest = some v }) id)
                                (if_closed P laws (k == 14) _ _
                                  (set_closed P laws _ (λ v. record x { event_type = some v }) text)
                                  (if_closed P laws (k == 15) _ _
                                    (set_closed P laws _ (λ v. record x { event_details = some v })
                                      (laws.captures _ _ (parse_event_details_closed limits)))
                                    (laws.fails _ _)))))))))))))))

  immutable_fields_closed : (limits : RevisionLimits) → P _ (immutable_fields limits)
  unfolding immutable_fields
  immutable_fields_closed limits =
      laws.binds _ _ (Reader.map limits 4) _ (laws.maps limits 4) λ count. laws.checks _ _ _ _ (
        laws.binds _ _ (read_fields (immutable_field limits) count 0 no_fields) _
          (read_fields_closed P laws _ count 0 no_fields (immutable_field_closed limits))
          λ x. laws.checks _ _ _ _ (laws.returns _ x))

  read_copy_closed : P _ read_copy
  unfolding read_copy
  read_copy_closed = laws.binds _ _ unsigned_integer _ laws.unsigneds λ start.
      laws.binds _ _ unsigned_integer _ laws.unsigneds
        λ count. laws.checks _ _ _ _ (laws.returns _ _)

  read_insert_closed : (limits : RevisionLimits) → P _ (read_insert limits)
  unfolding read_insert
  read_insert_closed limits =
      laws.binds _ _ (Reader.bytes limits 0 limits.max_text_bytes) _ (laws.strings limits 0 _)
        λ v. laws.checks _ _ _ _ (laws.returns _ _)

  read_segment_closed : (limits : RevisionLimits) → P _ (read_segment limits)
  unfolding read_segment
  read_segment_closed limits =
      laws.binds _ _ (Reader.array limits 7) _ (laws.arrays limits 7) λ fields.
        laws.binds _ _ unsigned_integer _ laws.unsigneds λ type.
          if_closed P laws (type == 0 && fields == 3) _ _ read_copy_closed (
            if_closed P laws (type == 1 && fields == 2) _ _ (read_insert_closed limits)
              (laws.fails _ unsupported_format))

  read_segments_closed :
      (limits : RevisionLimits) (n total inserted : ℕ) (xs : List Segment)
      → P _ (read_segments limits n total inserted xs)
  unfolding read_segments
  read_segments_closed limits zero total inserted xs = laws.checks _ _ _ _ (laws.returns _ xs)
  read_segments_closed limits (suc n) total inserted xs =
      laws.binds _ _ (read_segment limits) _ (read_segment_closed limits)
        λ s. laws.checks _ _ _ _ (read_segments_closed limits n total _ _)

  read_whole_closed : (limits : RevisionLimits) (total : ℕ) → P _ (read_whole limits total)
  unfolding read_whole
  read_whole_closed limits total =
      laws.binds _ _ (Reader.bytes limits 0 limits.max_text_bytes) _ (laws.strings limits 0 _) λ v.
        laws.checks _ (not (length v == total)) malformed_cbor _ (
          laws.checks _ (not (valid_canonical_document_text v)) malformed_cbor _ (laws.returns _ _))

  read_delta_closed : (limits : RevisionLimits) (total : ℕ) → P _ (read_delta limits total)
  unfolding read_delta
  read_delta_closed limits total =
      laws.binds _ _ (Reader.array limits 6) _ (laws.arrays limits 6) λ n.
        laws.binds _ _ (read_segments limits n total 0 []) _
          (read_segments_closed limits n total 0 []) λ xs. laws.returns _ _

  parse_body_closed : (limits : RevisionLimits) (storage : ℕ) → P _ (parse_body limits storage)
  unfolding parse_body
  parse_body_closed limits storage =
      laws.binds _ _ (Reader.array limits 5) _ (laws.arrays limits 5) λ fields.
        laws.checks _ _ _ _ (
          laws.binds _ _ unsigned_integer _ laws.unsigneds λ version. laws.checks _ _ _ _ (
            laws.binds _ _ unsigned_integer _ laws.unsigneds λ size.
              laws.checks _ (ltb limits.max_text_bytes size) limit_exceeded _ (
                if_closed P laws (is_whole storage) _ _ (read_whole_closed limits size)
                  (read_delta_closed limits size))))

  read_true_closed : P _ read_true
  unfolding read_true
  read_true_closed = laws.binds _ _ boolean _ laws.booleans λ v. check_closed P laws _ _

  module _ (hash : Bytes → Bytes) (limits : RevisionLimits) where
    parse_immutable_closed : (id : RevisionId) → P _ (parse_immutable hash limits id)
    unfolding parse_immutable
    parse_immutable_closed id =
        laws.binds _ _ (captured (immutable_fields limits)) _
          (laws.captures _ _ (immutable_fields_closed limits))
          λ found. laws.checks _ _ _ _ (laws.returns _ found)

    body_field_closed :
        (storage : ℕ) (x : Immutable) (t : Tail) → P _ (body_field hash limits storage x t)
    unfolding body_field
    body_field_closed storage x t = laws.checks _ _ _ _ (
        laws.binds _ _ (captured (parse_body limits storage)) _
          (laws.captures _ _ (parse_body_closed limits storage))
          λ found. laws.checks _ _ _ _ (laws.returns _ _))

    tail_field_closed :
        (storage : ℕ) (x : Immutable) (k : ℕ) (t : Tail)
        → P _ (tail_field hash limits storage x k t)
    unfolding tail_field
    tail_field_closed storage x k t =
        let flagged = λ (f : Unit {0} → Tail). set_closed P laws read_true f read_true_closed in
        if_closed P laws (k == 4) _ _ (body_field_closed storage x t) (
          if_closed P laws (k == 5) _ _ (flagged λ v. record t { provisional = true }) (
            if_closed P laws (k == 6) _ _
              (set_closed P laws _ (λ v. record t { resolved_by = some v })
                (read_id_closed P laws limits))
              (if_closed P laws (k == 7) _ _ (flagged λ v. record t { foreign = true })
                (laws.fails _ unsupported_format))))

    pub record_fields_closed : P _ (record_fields hash limits)
    unfolding record_fields
    record_fields_closed = laws.binds _ _ (Reader.map limits 3) _ (laws.maps limits 3) λ fields.
        laws.checks _ _ _ _ (
          laws.binds _ _ (key 0 1) _ (key_closed P laws 0 1) λ k1.
            laws.binds _ _ (read_id limits) _ (read_id_closed P laws limits) λ id.
              laws.binds _ _ (key k1 2) _ (key_closed P laws k1 2) λ k2.
                laws.binds _ _ (parse_immutable hash limits id) _ (parse_immutable_closed id) λ x.
                  laws.binds _ _ (key k2 3) _ (key_closed P laws k2 3) λ k3.
                    laws.binds _ _ unsigned_integer _ laws.unsigneds λ storage.
                      laws.checks _ _ _ _ (
                        laws.binds _ _
                          (read_fields (tail_field hash limits storage x.0) (fields - 3) k3 no_tail)
                          _
                          (read_fields_closed P laws _ _ k3 no_tail (tail_field_closed storage x.0))
                          λ t. laws.checks _ _ _ _ (laws.returns _ _)))

    pub parse_record_closed : P _ (parse_record hash limits)
    unfolding parse_record
    parse_record_closed =
        laws.binds _ _ (captured (record_fields hash limits)) _
          (laws.captures _ _ record_fields_closed) λ found. laws.returns _ _
