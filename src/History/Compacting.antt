-- ===== src/History/Compacting.antt =====
-- `compact_at` of src/format/revision_graph.cpp and `HistoryService` of
-- src/core/history_service.cpp. `hash` stands for `blake2b_256`.
-- `content_indices`, of records that start at index `i`.
use scpefe.Base.{
  Bool, Bytes, List, Option, Outcome, [], err, false, fault, get_elem?, if◌then◌else◌, is_empty,
  leb, length, ltb, none, not, ok, some, ℕ, ◌&&◌, ◌++◌, ◌+◌, ◌-◌, ◌==◌, ◌||◌, ◌∷◌,
}
use scpefe.Cbor.Limits.{RevisionError, invalid_argument}
use scpefe.Cbor.Reader.{text}
use scpefe.Cbor.Writer.{put_bytes, put_map, put_raw, put_unsigned, ◌▷◌}
use scpefe.Graph.Changes.{bit, find_slot}
use scpefe.Graph.Parsing.{compaction}
use scpefe.Graph.Records.{RevisionGraph, RevisionId, RevisionRecord, RevisionSlot}
use scpefe.History.Bodies.{is_content_record}
use scpefe.History.Encoding.{Attribution, GraphFields, decoded, fields_of, last_record, put_graph}
use scpefe.History.NewRecords.{event_record}
use scpefe.History.Saving.{invalid_when, max_timestamp, reconstruct, whole_body}

unfoldable pub content_indices : ℕ → List RevisionRecord → List ℕ
content_indices i [] = []
content_indices i (r ∷ rs) =
    let rest = content_indices (i + 1) rs in if is_content_record r then i ∷ rest else rest

-- Every right, and no password to be changed.
abbrev pub may_compact : RevisionSlot → Bool
may_compact slot =
    bit 1 slot.permissions
    && bit 2 slot.permissions
    && bit 4 slot.permissions
    && not slot.must_be_changed

abbrev pub is_member : RevisionSlot → Option (RevisionSlot × ℕ) → Bool
is_member actor none = false
is_member actor (some (slot, i)) = slot.permissions == actor.permissions && not slot.must_be_changed

unfoldable pub cutoff_details : RevisionId → ℕ → Bytes
cutoff_details cutoff retained =
    [] ▷ put_map 2 ▷ put_unsigned 2 ▷ put_bytes cutoff ▷ put_unsigned 3 ▷ put_unsigned retained

-- A record without its body; the one at the cutoff keeps its text as a checkpoint.
unfoldable pub put_cut : RevisionRecord → Bool → Bytes → Bytes
put_cut r anchor checkpoint =
    let start =
      []
      ▷ put_map (if anchor then 4 else 3)
      ▷ put_unsigned 1
      ▷ put_bytes r.id
      ▷ put_unsigned 2
      ▷ put_raw r.immutable_cbor
      ▷ put_unsigned 3
      ▷ put_unsigned (if anchor then 3 else 4) in
    if anchor then start ▷ put_unsigned 4 ▷ put_raw checkpoint else start

-- Of records that start at index `i`.
unfoldable pub cut_records : ℕ → Bytes → ℕ → List RevisionRecord → List Bytes
unfolding put_cut
cut_records cutoff checkpoint i [] = []
cut_records cutoff checkpoint i (r ∷ rs) =
    (if not (is_content_record r) || ltb cutoff i
      then r.record_cbor
      else put_cut r (i == cutoff) checkpoint)
    ∷ cut_records cutoff checkpoint (i + 1) rs

module _ (hash : Bytes → Bytes) (g : RevisionGraph) where
  unfoldable pub compact_fields :
      RevisionRecord → RevisionId → ℕ → Bytes → ℕ → Attribution → GraphFields
  unfolding event_record cutoff_details whole_body cut_records
  compact_fields last cutoff_id cutoff text retained a =
      let new = event_record hash g last a compaction (cutoff_details cutoff_id retained) in
      record (fields_of g) {
        encoded_records = cut_records cutoff (whole_body text) 0 g.records ++ (new.1 ∷ []);
        head = new.0;
      }

  -- `cutoff` is the index of a content record, behind which `retained` content records are.
  unfoldable pub compact_from : RevisionRecord → ℕ → ℕ → Attribution → Outcome RevisionError Bytes
  unfolding reconstruct compact_fields put_graph decoded
  compact_from last cutoff retained a = elim (get_elem? g.records cutoff) [
    | none ↦ fault
    | some r ↦ elim (reconstruct hash g r.id) [
      | ok none ↦ err invalid_argument
      | ok (some text) ↦ decoded hash (put_graph (compact_fields last r.id cutoff text retained a))
      | err e ↦ err e
      | fault ↦ fault
    ]
  ]

  unfoldable pub compact_at : ℕ → Attribution → Outcome RevisionError Bytes
  unfolding last_record content_indices compact_from
  compact_at content_cutoff a = elim (last_record g.records) [
    | none ↦ fault
    | some last ↦
        let indices = content_indices 0 g.records in
        invalid_when
          (last.provisional
            || ltb max_timestamp a.timestamp_ms
            || is_empty a.client_name
            || is_empty a.client_email
            || is_empty a.device
            || not (may_compact a.actor)
            || not (is_member a.actor (find_slot a.actor.id g.slots)))
          (elim (get_elem? indices content_cutoff) [
            | none ↦ err invalid_argument
            | some cutoff ↦ compact_from last cutoff (length indices - content_cutoff - 1) a
          ])
  ]

-- `compaction_cutoff`; the count is not 0 where 1 is subtracted.
unfoldable pub compaction_cutoff : ℕ → ℕ → ℕ
compaction_cutoff count retain_deltas =
    if count == 0 || leb (count - 1) retain_deltas then 0 else count - retain_deltas - 1

-- The number of content records before the first whose text is available, or `missing`.
unfoldable pub first_available : ℕ → ℕ → List RevisionRecord → ℕ
first_available missing count [] = missing
first_available missing count (r ∷ rs) =
    if is_content_record r && r.text_available
    then count
    else first_available missing (if is_content_record r then count + 1 else count) rs

unfoldable pub compact_graph :
    (Bytes → Bytes) → RevisionGraph → ℕ → Attribution → Outcome RevisionError Bytes
unfolding content_indices compaction_cutoff first_available compact_at
compact_graph hash g retain_deltas a =
    let cutoff = compaction_cutoff (length (content_indices 0 g.records)) retain_deltas in
    let available = first_available (length g.records) 0 g.records in
    compact_at hash g (if ltb cutoff available then available else cutoff) a
