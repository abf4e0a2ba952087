-- ===== src/History/Events.antt =====
-- `append_slot_event`, `append_activity_event` and `append_event` of
-- src/format/revision_graph.cpp. `hash` stands for `blake2b_256`.
use scpefe.Base.{
  Bytes, List, Option, Outcome, [], err, fault, get_elem?, if◌then◌else◌, is_empty, length, ltb,
  none, some, ℕ, ◌++◌, ◌+◌, ◌||◌, ◌∷◌,
}
use scpefe.Cbor.Limits.{RevisionError, invalid_argument}
use scpefe.Cbor.Writer.{Writes, put_bytes, put_map, put_text, put_unsigned, ◌▷◌}
use scpefe.Graph.Parsing.{has}
use scpefe.Graph.Records.{RevisionGraph, RevisionRecord, RevisionSlot}
use scpefe.History.Encoding.{
  Attribution, GraphFields, decoded, fields_of, last_record, put_graph, put_owner, put_slots,
  records_cbor,
}
use scpefe.History.NewRecords.{event_record}
use scpefe.History.Saving.{invalid_when, max_timestamp}

pub record EventInput : Type 0 where
  pub affected_slot : Bytes
  pub event_type : Bytes
  pub event_detail : Bytes
  pub activity_status : Option ℕ

abbrev put_status : Option ℕ → Writes
put_status none output = output
put_status (some status) output = output ▷ put_unsigned 4 ▷ put_unsigned status

unfoldable pub event_details_cbor : EventInput → Bytes
event_details_cbor e =
    let start =
      []
      ▷ put_map (
          1 + (if has e.activity_status then 1 else 0) + (if is_empty e.event_detail then 0 else 1))
      ▷ put_unsigned 1
      ▷ put_bytes e.affected_slot
      ▷ put_status e.activity_status in
    if is_empty e.event_detail then start else start ▷ put_unsigned 5 ▷ put_text e.event_detail

module _ (hash : Bytes → Bytes) (g : RevisionGraph) where
  -- `owner` is the first of the new slots.
  unfoldable pub event_fields :
      RevisionRecord → RevisionSlot → List RevisionSlot → Attribution → EventInput → GraphFields
  unfolding event_record event_details_cbor put_slots put_owner records_cbor
  event_fields last owner slots a e =
      let new = event_record hash g last a e.event_type (event_details_cbor e) in
      record (fields_of g) {
        slots_cbor = [] ▷ put_slots slots;
        owner_cbor = [] ▷ put_owner owner;
        encoded_records = records_cbor g.records ++ (new.1 ∷ []);
        head = new.0;
      }

  unfoldable pub append_event :
      List RevisionSlot → Attribution → EventInput → Outcome RevisionError Bytes
  unfolding last_record event_fields put_graph decoded
  append_event slots a e = elim (last_record g.records) [
    | none ↦ fault
    | some last ↦ elim (get_elem? slots 0) [
      | none ↦ err invalid_argument
      | some owner ↦
          invalid_when
            (last.provisional
              || ltb 9 (length slots)
              || is_empty e.event_type
              || ltb max_timestamp a.timestamp_ms)
            (decoded hash (put_graph (event_fields last owner slots a e)))
    ]
  ]

  unfoldable pub append_slot_event :
      List RevisionSlot → Attribution → Bytes → Bytes → Bytes → Outcome RevisionError Bytes
  unfolding append_event
  append_slot_event slots a affected_slot event_type event_detail = append_event slots a (record {
    affected_slot = affected_slot;
    event_type = event_type;
    event_detail = event_detail;
    activity_status = none;
  })

  unfoldable pub append_activity_event :
      Attribution → Bytes → Bytes → ℕ → Outcome RevisionError Bytes
  unfolding append_event
  append_activity_event a event_type event_detail activity_status =
      invalid_when (ltb 2 activity_status) (
        append_event g.slots a (record {
          affected_slot = a.actor.id;
          event_type = event_type;
          event_detail = event_detail;
          activity_status = some activity_status;
        }))
