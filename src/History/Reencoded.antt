-- ===== src/History/Reencoded.antt =====
-- What `put_graph` writes of parts that are read back, `graph_fields` of
-- src/format/revision_graph.cpp reads.
use scpefe.Base.{
  All, Bytes, List, Option, [], ap, arith, false, inr, length, none, not, refl, some, suc, ℕ, ◌&&◌,
  ◌+◌, ◌<◌, ◌==◌, ◌∷◌, ◌≡◌, ◌≤◌,
}
use scpefe.Cbor.Encodes.{
  >>=-Encodes, Encodes, array-Encodes, bytes-Encodes, checked-Encodes, map-Encodes, raw-Encodes,
  return-Encodes, unsigned-Encodes,
}
use scpefe.Cbor.Items.{ReadsBack}
use scpefe.Cbor.Limits.{default_limits, malformed_cbor, unsupported_format}
use scpefe.Cbor.Reading.{Reads}
use scpefe.Cbor.Writer.{put_array, put_bytes, put_raw, put_unsigned}
use scpefe.Graph.Body.{parse_record}
use scpefe.Graph.Locality.{captured_back}
use scpefe.Graph.Parsing.{captured}
use scpefe.Graph.Records.{RevisionGraph, RevisionRecord}
use scpefe.Graph.Slots.{fits, key, parse_lease, parse_owner, parse_slots, read_id}
use scpefe.History.Decoding.{
  counted_records, graph_body, last_field, read_extensions, read_features, read_records,
}
use scpefe.History.Encoding.{
  field_count, fields_of, put_extensions, put_graph, put_raws, records_cbor,
}
use scpefe.History.LeaseRoundTrip.{key-Encodes}
use scpefe.History.Restored.{IsRestorable}
use scpefe.History.Restoring.{IsKept}

-- The parts of a graph that an encoder writes, and what is read from them.
module _ (hash : Bytes → Bytes) where
  read_records-Encodes :
      (rs : List RevisionRecord)
      → All (IsKept hash) rs
      → Encodes (read_records hash default_limits (length rs)) (put_raws (records_cbor rs)) rs
  unfolding read_records records_cbor put_raws
  read_records-Encodes [] h = return-Encodes []
  read_records-Encodes (r ∷ rs) h =
      >>=-Encodes _ (raw-Encodes (parse_record hash default_limits) r.record_cbor r h.0)
        (>>=-Encodes _ (read_records-Encodes rs h.1) (return-Encodes (r ∷ rs)))

  length-records_cbor : (rs : List RevisionRecord) → length (records_cbor rs) ≡ length rs
  unfolding records_cbor
  length-records_cbor [] = refl
  length-records_cbor (r ∷ rs) = ap suc (length-records_cbor rs)

  counted_records-Encodes :
      (rs : List RevisionRecord)
      → All (IsKept hash) rs
      → 1 ≤ length rs
      → length rs ≤ default_limits.max_collection_entries
      → Encodes
          (counted_records hash default_limits)
          (λ output. put_raws (records_cbor rs) (put_array (length (records_cbor rs)) output))
          rs
  unfolding counted_records
  counted_records-Encodes rs h l k = rw (length-records_cbor rs) (
      let some_record : (length rs == 0) ≡ false = ground arith in
      >>=-Encodes _ (array-Encodes default_limits 2 (length rs) (omega arith) k (omega arith))
        (checked-Encodes malformed_cbor some_record (read_records-Encodes rs h)))

  id-Encodes : (id : Bytes) → 32 ≡ length id → Encodes (read_id default_limits) (put_bytes id) id
  unfolding read_id
  id-Encodes id h = bytes-Encodes default_limits 32 0 id (omega arith) (omega arith) (inr h)

  captured-Encodes :
      {A : Type 0} (m : Reads A) (c : Bytes) (a : A)
      → ReadsBack m c a
      → Encodes (captured m) (put_raw c) (a, c)
  captured-Encodes m c a h = raw-Encodes (captured m) c (a, c) (captured_back m c a h)

  last_field-Encodes :
      (extensions : Option Bytes)
      → ((c : Bytes) → extensions ≡ some c → ReadsBack (read_extensions default_limits) c tt)
      → Encodes
          (last_field hash default_limits (field_count extensions) 8)
          (put_extensions extensions)
          extensions
  unfolding last_field
  last_field-Encodes none h = return-Encodes none
  last_field-Encodes (some c) h = >>=-Encodes _ (key-Encodes 8 9 (omega arith) (omega arith)) (
      >>=-Encodes _ (captured-Encodes (read_extensions default_limits) c tt (h c refl))
        (return-Encodes (some c)))

  fields_fit :
      (extensions : Option Bytes)
      → (field_count extensions ≤ 9)
        × ((not (field_count extensions == 8) && not (field_count extensions == 9)) ≡ false)
  fields_fit none = (omega arith, refl)
  fields_fit (some c) = (omega arith, refl)

  -- A graph that was read is read again from what is written of it.
  pub graph_body-put_graph :
      (g : RevisionGraph)
      → IsRestorable hash g
      → ReadsBack
          (graph_body hash default_limits)
          (put_graph (fields_of g))
          (record g { encoded = []; max_text_bytes = default_limits.max_text_bytes })
  unfolding graph_body put_graph
  graph_body-put_graph g h =
      let limits = default_limits in
      let (owner, owner_back, same_owner) = h.owner in
      let (few, fits) = fields_fit g.extensions_cbor in
      let keyed : (i : ℕ) → i < 9 → Encodes (key i (i + 1)) (put_unsigned (i + 1)) (i + 1) =
        λ i l. key-Encodes i (i + 1) (omega arith) (omega arith) in
      let all : Encodes (graph_body hash default_limits) _
          (record g { encoded = []; max_text_bytes = default_limits.max_text_bytes }) =
        >>=-Encodes _
          (map-Encodes limits 1 (field_count g.extensions_cbor) (omega arith) (omega (arith, few))
            (omega (arith, few)))
          (checked-Encodes malformed_cbor fits (
            >>=-Encodes _ (keyed 0 (omega arith)) (
              >>=-Encodes _ (unsigned-Encodes 1 (omega arith)) (
                checked-Encodes unsupported_format refl (
                  >>=-Encodes _ (keyed 1 (omega arith)) (
                    >>=-Encodes _
                      (captured-Encodes (parse_slots limits) g.slots_cbor g.slots h.slots)
                      (>>=-Encodes _ (keyed 2 (omega arith)) (
                        >>=-Encodes _
                          (captured-Encodes (parse_owner limits) g.owner_cbor owner owner_back)
                          (checked-Encodes malformed_cbor (ap not same_owner) (
                            >>=-Encodes _ (keyed 3 (omega arith)) (
                              >>=-Encodes _
                                (captured-Encodes (parse_lease limits) g.lease_cbor g.lease h.lease)
                                (>>=-Encodes _ (keyed 4 (omega arith)) (
                                  >>=-Encodes _
                                    (counted_records-Encodes g.records h.records h.count.0
                                      h.count.1)
                                    (>>=-Encodes _ (keyed 5 (omega arith)) (
                                      >>=-Encodes _ (id-Encodes g.head h.head) (
                                        >>=-Encodes _ (keyed 6 (omega arith)) (
                                          >>=-Encodes _ (id-Encodes g.content_head h.content_head) (
                                            >>=-Encodes _ (keyed 7 (omega arith)) (
                                              >>=-Encodes _
                                                (captured-Encodes (read_features limits)
                                                  g.features_cbor tt h.features)
                                                (>>=-Encodes _
                                                  (last_field-Encodes g.extensions_cbor
                                                    h.extensions)
                                                  (return-Encodes _))))))))))))))))))))) in
      all.reads
