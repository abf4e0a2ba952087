-- ===== src/History/Encoding.antt =====
-- What the encoders of `RevisionGraph` in src/format/revision_graph.cpp have in common: the map of
-- the whole graph, its slots, owner and lease, the attribution of a record, and the decoding that
-- an encoder runs over its own output.
use scpefe.Base.{
  Bytes, List, Option, Outcome, [], err, fault, if◌then◌else◌, is_empty, length, none, ok, some, ℕ,
  ◌++◌, ◌∷◌,
}
use scpefe.Cbor.Limits.{RevisionError, default_limits}
use scpefe.Cbor.Reader.{bytes}
use scpefe.Cbor.Writer.{
  Writes, put_array, put_boolean, put_bytes, put_map, put_raw, put_text, put_unsigned, ◌▷◌,
}
use scpefe.Graph.Records.{RevisionGraph, RevisionId, RevisionLease, RevisionRecord, RevisionSlot}
use scpefe.Graph.Slots.{zero_session}
use scpefe.History.Decoding.{decode}

pub record GraphFields : Type 0 where
  pub slots_cbor : Bytes
  pub owner_cbor : Bytes
  pub lease_cbor : Bytes
  pub encoded_records : List Bytes
  pub head : RevisionId
  pub content_head : RevisionId
  pub features_cbor : Bytes
  pub extensions_cbor : Option Bytes

unfoldable pub put_raws : List Bytes → Writes
put_raws [] output = output
put_raws (x ∷ xs) output = put_raws xs (output ▷ put_raw x)

abbrev pub put_extensions : Option Bytes → Writes
put_extensions none output = output
put_extensions (some bytes) output = output ▷ put_unsigned 9 ▷ put_raw bytes

-- `field_ranges_[9].second ? 9 : 8`
abbrev pub field_count : Option Bytes → ℕ
field_count none = 8
field_count (some bytes) = 9

unfoldable pub put_graph : GraphFields → Bytes
unfolding put_raws
put_graph g =
    []
    ▷ put_map (field_count g.extensions_cbor)
    ▷ put_unsigned 1
    ▷ put_unsigned 1
    ▷ put_unsigned 2
    ▷ put_raw g.slots_cbor
    ▷ put_unsigned 3
    ▷ put_raw g.owner_cbor
    ▷ put_unsigned 4
    ▷ put_raw g.lease_cbor
    ▷ put_unsigned 5
    ▷ put_array (length g.encoded_records)
    ▷ put_raws g.encoded_records
    ▷ put_unsigned 6
    ▷ put_bytes g.head
    ▷ put_unsigned 7
    ▷ put_bytes g.content_head
    ▷ put_unsigned 8
    ▷ put_raw g.features_cbor
    ▷ put_extensions g.extensions_cbor

unfoldable pub records_cbor : List RevisionRecord → List Bytes
records_cbor [] = []
records_cbor (r ∷ rs) = r.record_cbor ∷ records_cbor rs

-- The fields of a graph as they were read.
abbrev pub fields_of : RevisionGraph → GraphFields
fields_of g = record {
  slots_cbor = g.slots_cbor;
  owner_cbor = g.owner_cbor;
  lease_cbor = g.lease_cbor;
  encoded_records = records_cbor g.records;
  head = g.head;
  content_head = g.content_head;
  features_cbor = g.features_cbor;
  extensions_cbor = g.extensions_cbor;
}

unfoldable pub put_slot : RevisionSlot → Writes
put_slot slot output =
    output
    ▷ put_map 7
    ▷ put_unsigned 1
    ▷ put_bytes slot.id
    ▷ put_unsigned 2
    ▷ put_unsigned slot.permissions
    ▷ put_unsigned 3
    ▷ put_boolean slot.must_be_changed
    ▷ put_unsigned 4
    ▷ put_unsigned slot.role
    ▷ put_unsigned 5
    ▷ put_bytes slot.management_id
    ▷ put_unsigned 6
    ▷ put_text slot.name
    ▷ put_unsigned 7
    ▷ put_text slot.email

unfoldable pub put_entries : List RevisionSlot → Writes
put_entries [] output = output
put_entries (slot ∷ slots) output = put_entries slots (output ▷ put_slot slot)

unfoldable pub put_slots : List RevisionSlot → Writes
unfolding put_entries
put_slots slots output = output ▷ put_array (length slots) ▷ put_entries slots

unfoldable pub put_owner : RevisionSlot → Writes
put_owner owner output =
    output
    ▷ put_map 3
    ▷ put_unsigned 1
    ▷ put_bytes owner.id
    ▷ put_unsigned 2
    ▷ put_text owner.name
    ▷ put_unsigned 3
    ▷ put_text owner.email

unfoldable pub put_lease : RevisionLease → Writes
put_lease lease output =
    output
    ▷ put_map 8
    ▷ put_unsigned 1
    ▷ put_boolean lease.active
    ▷ put_unsigned 2
    ▷ put_bytes lease.session_id
    ▷ put_unsigned 3
    ▷ put_unsigned lease.heartbeat_counter
    ▷ put_unsigned 4
    ▷ put_unsigned lease.holder_utc_ms
    ▷ put_unsigned 5
    ▷ put_unsigned lease.duration_ms
    ▷ put_unsigned 6
    ▷ put_text lease.holder_name
    ▷ put_unsigned 7
    ▷ put_text lease.holder_email
    ▷ put_unsigned 8
    ▷ put_text lease.device

-- Who wrote a record, when, and on which device.
pub record Attribution : Type 0 where
  pub timestamp_ms : ℕ
  pub actor : RevisionSlot
  pub client_name : Bytes
  pub client_email : Bytes
  pub device : Bytes

abbrev pub or_else : Bytes → Bytes → Bytes
or_else name other = if is_empty name then other else name

unfoldable pub put_attribution : Attribution → Writes
put_attribution a output =
    output
    ▷ put_unsigned 5
    ▷ put_unsigned a.timestamp_ms
    ▷ put_unsigned 6
    ▷ put_bytes a.actor.id
    ▷ put_unsigned 7
    ▷ put_text (or_else a.actor.name a.client_name)
    ▷ put_unsigned 8
    ▷ put_text (or_else a.actor.email a.client_email)
    ▷ put_unsigned 9
    ▷ put_text a.client_name
    ▷ put_unsigned 10
    ▷ put_text a.client_email
    ▷ put_unsigned 11
    ▷ put_text a.device

-- An array that was not read is zero.
abbrev pub id_or_zero : Option Bytes → Bytes
id_or_zero none = zero_session ++ zero_session
id_or_zero (some id) = id

unfoldable pub last_record : List RevisionRecord → Option RevisionRecord
last_record [] = none
last_record (r ∷ rs) = let rest = last_record rs in elim rest [ none ↦ some r | some x ↦ some x ]

-- `(void)RevisionGraph::decode(...)`: the output is returned only if it decodes.
unfoldable pub decoded : (Bytes → Bytes) → Bytes → Outcome RevisionError Bytes
unfolding decode
decoded hash output = elim (decode hash default_limits output) [
  | ok g ↦ ok output
  | err e ↦ err e
  | fault ↦ fault
]

unfoldable pub replace_lease :
    (Bytes → Bytes) → RevisionGraph → RevisionLease → Outcome RevisionError Bytes
unfolding put_graph records_cbor put_lease decoded
replace_lease hash g lease =
    decoded hash (put_graph (record (fields_of g) { lease_cbor = [] ▷ put_lease lease }))
