-- ===== src/History/Closure.antt =====
-- A property of calls that the combinators of src/format/cbor_reader.cpp keep holds of what
-- `decode` of src/format/revision_graph.cpp reads before the end of the input.
use scpefe.Base.{Bytes, [], none, suc, zero, ℕ, ◌==◌, ◌∷◌}
use scpefe.Cbor.Limits.{RevisionLimits}
use scpefe.Cbor.Reader.{skip_extension, unsigned_integer}
use scpefe.Cbor.Reading.{Reads}
use scpefe.Graph.Body.{parse_record}
use scpefe.Graph.Closure.{
  IsClosed, check_closed, if_closed, key_closed, parse_lease_closed, parse_owner_closed,
  parse_slots_closed, read_id_closed,
}
use scpefe.Graph.Parsing.{captured}
use scpefe.Graph.RecordClosure.{parse_record_closed}
use scpefe.Graph.Slots.{key, parse_lease, parse_owner, parse_slots, read_id}
use scpefe.History.Decoding.{
  counted_records, extension_entries, graph_body, last_field, read_extensions, read_features,
  read_records,
}
use scpefe.Cbor.Reader

module _ (P : (A : Type 0) → Reads A → Type 0) (laws : IsClosed P) where
  pub read_features_closed : (limits : RevisionLimits) → P _ (read_features limits)
  unfolding read_features
  read_features_closed limits =
      laws.binds _ _ (Reader.array limits 2) _ (laws.arrays limits 2)
        λ count. check_closed P laws _ _

  extension_entries_closed :
      (limits : RevisionLimits) (n previous : ℕ) → P _ (extension_entries limits n previous)
  unfolding extension_entries
  extension_entries_closed limits zero previous = laws.returns _ tt
  extension_entries_closed limits (suc n) previous =
      laws.binds _ _ unsigned_integer _ laws.unsigneds λ k. laws.checks _ _ _ _ (
        laws.binds _ _ (skip_extension limits 3) _ (laws.extensions limits 3)
          λ u. extension_entries_closed limits n k)

  pub read_extensions_closed : (limits : RevisionLimits) → P _ (read_extensions limits)
  unfolding read_extensions
  read_extensions_closed limits =
      laws.binds _ _ (Reader.map limits 2) _ (laws.maps limits 2)
        λ count. extension_entries_closed limits count 999

  module _ (hash : Bytes → Bytes) (limits : RevisionLimits) where
    read_records_closed : (n : ℕ) → P _ (read_records hash limits n)
    unfolding read_records
    read_records_closed zero = laws.returns _ []
    read_records_closed (suc n) =
        laws.binds _ _ (parse_record hash limits) _ (parse_record_closed P laws hash limits) λ r.
          laws.binds _ _ (read_records hash limits n) _ (read_records_closed n)
            λ rs. laws.returns _ (r ∷ rs)

    last_field_closed : (fields previous : ℕ) → P _ (last_field hash limits fields previous)
    unfolding last_field
    last_field_closed fields previous =
        if_closed P laws (fields == 9) _ _
          (laws.binds _ _ (key previous 9) _ (key_closed P laws previous 9) λ k.
            laws.binds _ _ (captured (read_extensions limits)) _
              (laws.captures _ _ (read_extensions_closed limits)) λ x. laws.returns _ _)
          (laws.returns _ none)

    counted_records_closed : P _ (counted_records hash limits)
    unfolding counted_records
    counted_records_closed =
        laws.binds _ _ (Reader.array limits 2) _ (laws.arrays limits 2)
          λ count. laws.checks _ _ _ _ (read_records_closed count)

    pub graph_body_closed : P _ (graph_body hash limits)
    unfolding graph_body
    graph_body_closed =
        let keyed = key_closed P laws in
        let id = read_id_closed P laws limits in
        laws.binds _ _ (Reader.map limits 1) _ (laws.maps limits 1) λ fields. laws.checks _ _ _ _ (
          laws.binds _ _ (key 0 1) _ (keyed 0 1) λ k1.
            laws.binds _ _ unsigned_integer _ laws.unsigneds λ version. laws.checks _ _ _ _ (
              laws.binds _ _ (key k1 2) _ (keyed k1 2) λ k2.
                laws.binds _ _ (captured (parse_slots limits)) _
                  (laws.captures _ _ (parse_slots_closed P laws limits))
                  λ slots. laws.binds _ _ (key k2 3) _ (keyed k2 3) λ k3.
                    laws.binds _ _ (captured (parse_owner limits)) _
                      (laws.captures _ _ (parse_owner_closed P laws limits))
                      λ owner. laws.checks _ _ _ _ (
                        laws.binds _ _ (key k3 4) _ (keyed k3 4) λ k4.
                          laws.binds _ _ (captured (parse_lease limits)) _
                            (laws.captures _ _ (parse_lease_closed P laws limits))
                            λ lease. laws.binds _ _ (key k4 5) _ (keyed k4 5) λ k5.
                              laws.binds _ _ (counted_records hash limits) _ counted_records_closed
                                λ records. laws.binds _ _ (key k5 6) _ (keyed k5 6) λ k6.
                                  laws.binds _ _ (read_id limits) _ id λ newest.
                                    laws.binds _ _ (key k6 7) _ (keyed k6 7) λ k7.
                                      laws.binds _ _ (read_id limits) _ id λ text_head.
                                        laws.binds _ _ (key k7 8) _ (keyed k7 8) λ k8.
                                          laws.binds _ _ (captured (read_features limits)) _
                                            (laws.captures _ _ (read_features_closed limits))
                                            λ features.
                                              laws.binds _ _ (last_field hash limits fields k8) _
                                                (last_field_closed fields k8)
                                                λ extensions. laws.returns _ _)))
