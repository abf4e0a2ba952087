-- ===== src/Snapshot/Wholes.antt =====
-- `encode` of src/format/snapshot_revision.cpp, and what `decode` reads of it before it validates.
use mathlib.Core.List.{append-nil}
use mathlib.Core.Path.{subst}
use scpefe.Base.{
  Bool, Bytes, List, [], arith, false, if◌then◌else◌, is_empty, length, ltb, ok, refl, true, ℕ, ◌+◌,
  ◌-◌, ◌||◌, ◌∷◌, ◌≡◌, ◌≤◌,
}
use scpefe.Cbor.Encodes.{>>=-Encodes, Encodes, checked-Encodes, map-Encodes, return-Encodes}
use scpefe.Cbor.Limits.{default_limits, malformed_cbor}
use scpefe.Cbor.Reader.{finished}
use scpefe.Cbor.Reading.{>>=-ok, at}
use scpefe.Cbor.Writer.{Writes, put_map, ◌▷◌}
use scpefe.Snapshot.Ancestors.{validate_ancestor_graph}
use scpefe.Snapshot.Data.{Node, SnapshotData}
use scpefe.Snapshot.Decoding.{read_data, read_optional, read_snapshot}
use scpefe.Snapshot.Encoding.{
  encode, optional_fields, put_ancestors, put_event, put_provisional, put_required,
}
use scpefe.Snapshot.Groups.{
  ancestors-Encodes, graph_count, provisional-Encodes, provisional-Later, provisional_count,
}
use scpefe.Snapshot.Parts.{AreNodes}
use scpefe.Snapshot.Required.{HasRequired, IsTextField, read_required-put_required, required_of}
use scpefe.Snapshot.Tails.{event-Later, event_count, event_tail}

-- The data that `decode` takes as they are.
pub record IsReadable (d : SnapshotData) : Type 0 where
  pub required : HasRequired d
  pub nodes : AreNodes d.ancestor_graph
  pub few_nodes : length d.ancestor_graph ≤ default_limits.max_collection_entries
  pub graph : validate_ancestor_graph d.ancestor_graph default_limits ≡ ok tt
  pub base : d.manually_sealed ≡ is_empty d.provisional_base_revision
  pub base_fits : length d.provisional_base_revision ≤ default_limits.max_input_bytes
  pub type : IsTextField d.event_type
  pub detail : IsTextField d.event_detail
  pub event : is_empty d.event_type ≡ is_empty d.event_detail

module _ (d : SnapshotData) (h : IsReadable d) where
  abbrev fields_left : ℕ
  fields_left =
      graph_count d.ancestor_graph
        (provisional_count d.provisional_base_revision (event_count d.event_type))

  graph_fields :
      (graph : List Node) (n : ℕ) → graph_count graph n ≡ (if is_empty graph then 0 else 1) + n
  graph_fields [] n = omega arith
  graph_fields (node ∷ nodes) n = omega arith

  base_fields :
      (sealed : Bool) (base : Bytes) (n : ℕ)
      → sealed ≡ is_empty base
      → provisional_count base n ≡ (if sealed then 0 else 2) + n
  base_fields true [] n same = omega arith
  base_fields false [] n same = cc
  base_fields false (x ∷ xs) n same = omega arith
  base_fields true (x ∷ xs) n same = cc

  event_fields_of : (type : Bytes) → event_count type ≡ (if is_empty type then 0 else 2)
  event_fields_of [] = refl
  event_fields_of (x ∷ xs) = refl

  optional_fields-fields_left : optional_fields d ≡ fields_left
  optional_fields-fields_left =
      rw
        (
          graph_fields d.ancestor_graph
              (provisional_count d.provisional_base_revision (event_count d.event_type)),
          base_fields d.manually_sealed d.provisional_base_revision (event_count d.event_type)
              h.base,
          event_fields_of d.event_type,
        )
        (omega arith)

  read_optional-Encodes :
      Encodes
        (read_optional default_limits (11 + optional_fields d - 11, required_of d))
        (λ output. output ▷ put_ancestors d.ancestor_graph ▷ put_provisional d ▷ put_event d)
        (0, d)
  unfolding put_provisional
  read_optional-Encodes =
      let left : 11 + optional_fields d - 11 ≡ fields_left =
        omega (arith, optional_fields-fields_left) in
      let event = event_tail d d.event_type d.event_detail h.type h.detail h.event in
      let later = event-Later d d.event_type d.event_detail in
      let no_event : SnapshotData = record d { event_type = []; event_detail = [] } in
      let base =
        provisional-Encodes no_event d.manually_sealed d.provisional_base_revision
          (event_count d.event_type) (put_event d) (0, d) h.base h.base_fits later event in
      let base_later =
        provisional-Later no_event d.manually_sealed d.provisional_base_revision
          (event_count d.event_type) (put_event d) h.base event.appends later in
      rw left (
        ancestors-Encodes
          (record d {
            manually_sealed = true;
            provisional_base_revision = [];
            event_type = [];
            event_detail = [];
          })
          d.ancestor_graph _ _ (0, d) h.nodes h.few_nodes h.graph base_later base)

  few_fields : optional_fields d ≤ 5
  few_fields = elim d.manually_sealed [ true ↦ ground arith | false ↦ ground arith ]

  abbrev written : Writes
  written output =
      output
      ▷ put_map (11 + optional_fields d)
      ▷ put_required d
      ▷ put_ancestors d.ancestor_graph
      ▷ put_provisional d
      ▷ put_event d

  read_data-Encodes : Encodes (read_data default_limits) written d
  unfolding read_data
  read_data-Encodes =
      let counted : (ltb (11 + optional_fields d) 11 || ltb 16 (11 + optional_fields d)) ≡ false =
        ground (arith, few_fields) in
      >>=-Encodes _
        (map-Encodes default_limits 1 (11 + optional_fields d) (omega arith)
          (omega (arith, few_fields)) (omega (arith, few_fields)))
        (checked-Encodes malformed_cbor counted (
          >>=-Encodes _ (read_required-put_required d h.required) (
            >>=-Encodes _ read_optional-Encodes
              (checked-Encodes malformed_cbor refl (return-Encodes d)))))

  data_read : read_data default_limits (at (encode d) 0) ≡ ok (d, at [] (0 + length (encode d)))
  unfolding encode
  data_read =
      subst (λ bs. read_data default_limits (at bs 0) ≡ ok (d, at [] (0 + length (encode d))))
        (append-nil (encode d)) (read_data-Encodes.reads [] 0)

  pub read_snapshot-encode :
      read_snapshot default_limits (at (encode d) 0) ≡ ok (d, at [] (0 + length (encode d)))
  unfolding read_snapshot finished
  read_snapshot-encode =
      >>=-ok (read_data default_limits) _ (at (encode d) 0) (at [] (0 + length (encode d))) d
        data_read
