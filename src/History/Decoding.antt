-- ===== src/History/Decoding.antt =====
-- `RevisionGraph::decode` of src/format/revision_graph.cpp. `hash` stands for
-- `blake2b_256`.
use scpefe.Base.{
  Bool, Bytes, List, Option, Outcome, [], bytes_eq, err, false, fault, if◌then◌else◌, is_empty, leb,
  length, ltb, none, not, ok, some, suc, zero, ℕ, ◌&&◌, ◌==◌, ◌∷◌,
}
use scpefe.Cbor.Limits.{
  RevisionError, RevisionLimits, invalid_argument, limit_exceeded, malformed_cbor,
  unsupported_format,
}
use scpefe.Cbor.Reader.{finished, head, skip_extension, unsigned_integer}
use scpefe.Cbor.Reading.{Reads, at, fail_if, return, ◌>>=◌, ◌>>◌}
use scpefe.Graph.Body.{parse_record}
use scpefe.Graph.Parsing.{captured}
use scpefe.Graph.Records.{OwnerIdentity, RevisionGraph, RevisionRecord, RevisionSlot}
use scpefe.Graph.Slots.{key, parse_lease, parse_owner, parse_slots, read_id}
use scpefe.History.Validation.{validate_graph}
use scpefe.Cbor.Reader

-- Field 3 repeats the identity of the first slot.
unfoldable pub is_owner : OwnerIdentity → List RevisionSlot → Bool
is_owner owner [] = false
is_owner owner (slot ∷ slots) =
    bytes_eq owner.id slot.id && bytes_eq owner.name slot.name && bytes_eq owner.email slot.email

unfoldable pub read_features : RevisionLimits → Reads (Unit {0})
read_features limits = do
  count ← Reader.array limits 2
  fail_if (not (count == 0)) unsupported_format

-- The keys of the extensions rise from 1000.
unfoldable pub extension_entries : RevisionLimits → ℕ → ℕ → Reads (Unit {0})
extension_entries limits zero previous = return tt
extension_entries limits (suc n) previous = do
  k ← unsigned_integer
  fail_if (leb k previous) malformed_cbor
  skip_extension limits 3
  extension_entries limits n k

unfoldable pub read_extensions : RevisionLimits → Reads (Unit {0})
read_extensions limits = do count ← Reader.map limits 2; extension_entries limits count 999

unfoldable pub read_end : Reads (Unit {0})
read_end r = fail_if (not (finished r)) malformed_cbor r

module _ (hash : Bytes → Bytes) (limits : RevisionLimits) where
  unfoldable pub read_records : ℕ → Reads (List RevisionRecord)
  read_records zero = return []
  read_records (suc n) = do r ← parse_record hash limits; rs ← read_records n; return (r ∷ rs)

  -- Field 9, where the map has one.
  unfoldable pub last_field : ℕ → ℕ → Reads (Option Bytes)
  last_field fields previous =
      if fields == 9
      then (do
        _ ← key previous 9
        extensions ← captured (read_extensions limits)
        return (some extensions.1))
      else return none

  unfoldable pub counted_records : Reads (List RevisionRecord)
  counted_records = do
    count ← Reader.array limits 2
    fail_if (count == 0) malformed_cbor
    read_records count

  -- What comes before the end of the input.
  unfoldable pub graph_body : Reads RevisionGraph
  graph_body = do
    fields ← Reader.map limits 1
    fail_if (not (fields == 8) && not (fields == 9)) malformed_cbor
    k1 ← key 0 1
    version ← unsigned_integer
    fail_if (not (version == 1)) unsupported_format
    k2 ← key k1 2
    slots ← captured (parse_slots limits)
    k3 ← key k2 3
    owner ← captured (parse_owner limits)
    fail_if (not (is_owner owner.0 slots.0)) malformed_cbor
    k4 ← key k3 4
    lease ← captured (parse_lease limits)
    k5 ← key k4 5
    records ← counted_records
    k6 ← key k5 6
    newest ← read_id limits
    k7 ← key k6 7
    text_head ← read_id limits
    k8 ← key k7 8
    features ← captured (read_features limits)
    extensions ← last_field fields k8
    return (record {
      records = records;
      head = newest;
      content_head = text_head;
      slots = slots.0;
      lease = lease.0;
      slots_cbor = slots.1;
      owner_cbor = owner.1;
      lease_cbor = lease.1;
      features_cbor = features.1;
      extensions_cbor = extensions;
      encoded = [];
      max_text_bytes = limits.max_text_bytes;
    })

  unfoldable pub graph_fields : Reads RevisionGraph
  graph_fields = do g ← graph_body; _ ← read_end; return g

  unfoldable pub validated : Bytes → RevisionGraph → Outcome RevisionError RevisionGraph
  validated input g = elim (validate_graph hash limits g.records g.head g.content_head) [
    | ok records ↦ ok (record g { records = records; encoded = input })
    | err e ↦ err e
    | fault ↦ fault
  ]

  unfoldable pub decode : Bytes → Outcome RevisionError RevisionGraph
  decode input =
      if is_empty input
      then err invalid_argument
      else if ltb limits.max_input_bytes (length input)
      then err limit_exceeded
      else elim (graph_fields (at input 0)) [
        | ok (g, r) ↦ validated input g
        | err e ↦ err e
        | fault ↦ fault
      ]
