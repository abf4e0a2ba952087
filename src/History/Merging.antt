-- ===== src/History/Merging.antt =====
-- `merge_with` and `compare` of src/format/revision_graph.cpp. `hash` stands for `blake2b_256`.
use scpefe.Base.{
  Bool, Bytes, List, Option, Outcome, [], bytes_eq, err, false, fault, if◌then◌else◌, is_empty, leb,
  length, none, not, ok, require_or, some, true, ℕ, ◌&&◌, ◌++◌, ◌>>=◌, ◌>>◌, ◌∷◌,
}
use scpefe.Cbor.Limits.{RevisionError, default_limits, invalid_argument, malformed_cbor}
use scpefe.Cbor.Reader.{text}
use scpefe.Cbor.Writer.{put_boolean, put_bytes, put_map, put_raw, put_unsigned, ◌▷◌}
use scpefe.Graph.Changes.{bit, find_slot}
use scpefe.Graph.Content.{is_content}
use scpefe.Graph.Lineage.{LineageError, assess_target, divergent, find_record, unrelated_target}
use scpefe.Graph.Parsing.{has}
use scpefe.Graph.Records.{RevisionGraph, RevisionId, RevisionRecord, RevisionSlot}
use scpefe.History.Bodies.{is_content_record}
use scpefe.History.Delta.{delta_body, merge_segments}
use scpefe.History.Encoding.{
  Attribution, GraphFields, decoded, last_record, put_graph, records_cbor,
}
use scpefe.History.NewRecords.{NewRecord, content_record}
use scpefe.History.Saving.{max_timestamp, reconstruct}

pub data MergeError : Type 0 where
  revision : RevisionError → MergeError
  lineage : LineageError → MergeError
  unavailable_base : MergeError

abbrev pub revised {ℓ} : {A : Type ℓ} → Outcome RevisionError A → Outcome MergeError A
revised m = elim m [ ok a ↦ ok a | err e ↦ err (revision e) | fault ↦ fault ]

-- The member of the target that merges.
abbrev pub may_merge : Option (RevisionSlot × ℕ) → Bool
may_merge none = false
may_merge (some (slot, i)) = bit 1 slot.permissions && not slot.must_be_changed

-- `base`: the last canonical content record that both have.
unfoldable pub find_base :
    List RevisionRecord
    → Option RevisionId
    → List RevisionRecord
    → Outcome RevisionError (Option RevisionId)
find_base ours base [] = ok base
find_base ours base (r ∷ rs) = elim (find_record r.id ours) [
  | none ↦ find_base ours base rs
  | some same ↦
      let rest =
        find_base ours (if not same.foreign && is_content_record r then some r.id else base) rs in
      if bytes_eq same.immutable_cbor r.immutable_cbor then rest else err malformed_cbor
]

-- The records that are not ours, as foreign records that the merge `id` resolves.
unfoldable pub put_foreign : RevisionId → RevisionRecord → Bytes
put_foreign id r =
    []
    ▷ put_map 5
    ▷ put_unsigned 1
    ▷ put_bytes r.id
    ▷ put_unsigned 2
    ▷ put_raw r.immutable_cbor
    ▷ put_unsigned 3
    ▷ put_unsigned 5
    ▷ put_unsigned 6
    ▷ put_bytes id
    ▷ put_unsigned 7
    ▷ put_boolean true

unfoldable pub foreign_records : RevisionId → List RevisionRecord → List RevisionRecord → List Bytes
unfolding put_foreign
foreign_records id ours [] = []
foreign_records id ours (r ∷ rs) =
    let rest = foreign_records id ours rs in
    if has (find_record r.id ours) then rest else put_foreign id r ∷ rest

module _ (hash : Bytes → Bytes) (ours target : RevisionGraph) where
  -- The new record, written on the text of our head.
  unfoldable pub merge_record : Attribution → Bytes → Bytes → NewRecord
  unfolding content_record merge_segments delta_body
  merge_record a text content =
      content_record hash
        (record {
          previous = ours.head;
          content_parent = ours.content_head;
          merge_sources = target.head ∷ [];
        })
        a content (delta_body (length content) (merge_segments text content)) false

  unfoldable pub merged_fields : NewRecord → GraphFields
  unfolding records_cbor foreign_records
  merged_fields new = record {
    slots_cbor = target.slots_cbor;
    owner_cbor = target.owner_cbor;
    lease_cbor = target.lease_cbor;
    encoded_records =
        records_cbor ours.records
        ++ foreign_records new.0 ours.records target.records
        ++ (new.1 ∷ []);
    head = new.0;
    content_head = new.0;
    features_cbor = ours.features_cbor;
    extensions_cbor = ours.extensions_cbor;
  }

  -- The text of the base, from either graph. The other graph is asked only if ours has none.
  unfoldable pub base_text : RevisionId → Outcome RevisionError (Option Bytes)
  unfolding reconstruct
  base_text base = elim (reconstruct hash ours base) [
    | ok none ↦ reconstruct hash target base
    | ok (some text) ↦ ok (some text)
    | err e ↦ err e
    | fault ↦ fault
  ]

  unfoldable pub merge_from : RevisionId → Attribution → Bytes → Outcome MergeError Bytes
  unfolding base_text reconstruct merged_fields merge_record put_graph decoded
  merge_from base a content = do
    found ← revised (base_text base)
    require_or unavailable_base (has found)
    text ← revised (reconstruct hash ours ours.content_head)
    elim text [
      | none ↦ err unavailable_base
      | some local_text ↦
          revised (decoded hash (put_graph (merged_fields (merge_record a local_text content))))
    ]

  unfoldable pub merge_divergent : Attribution → Bytes → Outcome MergeError Bytes
  unfolding find_base merge_from
  merge_divergent a content = do
    base ← revised (find_base ours.records none target.records)
    elim base [ none ↦ err (lineage unrelated_target) | some id ↦ merge_from id a content ]

  -- The arguments that `merge_with` accepts, of which the last records are `last` and `other`.
  unfoldable pub merge_arguments_fit : RevisionRecord → RevisionRecord → Attribution → Bytes → Bool
  unfolding is_content
  merge_arguments_fit last other a content =
      not last.provisional
      && not other.provisional
      && leb a.timestamp_ms max_timestamp
      && is_content default_limits content
      && not (is_empty a.client_name)
      && not (is_empty a.client_email)
      && not (is_empty a.device)
      && may_merge (find_slot a.actor.id target.slots)

  unfoldable pub merge_with : Attribution → Bytes → Outcome MergeError Bytes
  unfolding merge_arguments_fit assess_target merge_divergent last_record
  merge_with a content = elim (last_record ours.records) [
    | none ↦ fault
    | some last ↦ elim (last_record target.records) [
      | none ↦ fault
      | some other ↦
          if not (merge_arguments_fit last other a content)
          then err (revision invalid_argument)
          else elim (assess_target ours target) [
            | ok divergent ↦ merge_divergent a content
            | ok _ ↦ err (revision invalid_argument)
            | err e ↦ err (lineage e)
            | fault ↦ fault
          ]
    ]
  ]
