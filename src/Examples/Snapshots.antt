-- ===== src/Examples/Snapshots.antt =====
-- Revisions of src/format/snapshot_revision.cpp: a sealed one with an event and two ancestors, and a
-- provisional one on top of it.
use mathlib.Core.Bool.{xor}
use scpefe.Base.{
  List, [], arith, bytes_eq, drop, false, fault, length, ok, refl, ℕ, ◌++◌, ◌<◌, ◌∷◌, ◌≡◌, ◌≢◌,
}
use scpefe.Cbor.Limits.{default_limits}
use scpefe.Cbor.Reader.{boolean, finished, head, unsigned_integer}
use scpefe.Cbor.Writer.{header}
use scpefe.Graph.Slots.{zero_session}
use scpefe.Snapshot.Acyclic.{validate_ancestor_graph-IsTopological}
use scpefe.Snapshot.Ancestors.{
  check_nodes, find_node, set_state, validate_ancestor_graph, visit_all, visit_node, visit_parents,
}
use scpefe.Snapshot.Data.{Node, SnapshotData, ids, no_data}
use scpefe.Snapshot.DecodeEnds.{decode_snapshot-create-ne-fault}
use scpefe.Snapshot.Decoding.{
  as_malformed, matching_field, optional_field, read_ancestors, read_base, read_content, read_data,
  read_event_detail, read_event_type, read_ids, read_nodes, read_optional, read_parents,
  read_required, read_sealed, read_snapshot,
}
use scpefe.Snapshot.Encoding.{encode, put_ancestors, put_nodes, put_provisional, put_required}
use scpefe.Snapshot.Orders.{IsAmong, IsTopological}
use scpefe.Snapshot.RoundTrip.{decode_snapshot-encode}
use scpefe.Snapshot.Validation.{
  accepted, check_base, create, decode_at, decode_snapshot, event_fits, sizes_fit, texts_fit,
  validate_with,
}
use scpefe.Text.{code_point, utf8_loop, valid_canonical_document_text, valid_utf8}
use scpefe.Text.Utf8.{utf8}
use scpefe.Cbor.Reader

abbrev ancestors : List Node
ancestors =
    record { revision_id = zero_session ++ zero_session; parent_revision_ids = [] }
    ∷ record {
      revision_id = (zero_session ++ (1 ∷ [])) ++ (drop 1 zero_session);
      parent_revision_ids = zero_session ++ zero_session;
    }
    ∷ []

abbrev sealed : SnapshotData
sealed = record no_data {
  parent_revision_ids = (zero_session ++ (1 ∷ [])) ++ (drop 1 zero_session);
  timestamp_ms = 300;
  slot_id = zero_session;
  device_name = 0x64 ∷ [];
  content_hash = zero_session ++ zero_session;
  content = 0x61 ∷ 0x0a ∷ [];
  ancestor_graph = ancestors;
  event_type = 0x74 ∷ [];
  event_detail = 0x75 ∷ [];
}

abbrev provisional : SnapshotData
provisional = record no_data {
  slot_id = zero_session;
  content_hash = zero_session ++ zero_session;
  ancestor_graph = ancestors;
  manually_sealed = false;
  provisional_base_revision = encode sealed;
}

created : create provisional default_limits ≡ ok provisional
unfolding create decode_snapshot decode_at accepted validate_with sizes_fit texts_fit event_fits
    check_base validate_ancestor_graph check_nodes find_node visit_all visit_node visit_parents
    set_state scpefe.Snapshot.Ancestors.zeros read_snapshot read_data read_required read_optional
    read_ids read_parents read_nodes as_malformed read_content matching_field optional_field
    read_ancestors read_sealed read_base read_event_type read_event_detail encode
    scpefe.Snapshot.Encoding.put_ids ids put_nodes put_required put_ancestors put_provisional
    scpefe.Snapshot.Encoding.put_event xor head unsigned_integer boolean Reader.array Reader.map
    Reader.bytes Reader.text header finished valid_canonical_document_text valid_utf8 utf8_loop utf8
    code_point bytes_eq
created = refl

decode_snapshot-encode_example :
    decode_snapshot default_limits (encode provisional) ≡ ok provisional
decode_snapshot-encode_example =
    decode_snapshot-encode provisional (omega arith) (refl, (refl, tt)) created

accepted_ancestors : validate_ancestor_graph ancestors default_limits ≡ ok tt
unfolding validate_ancestor_graph check_nodes find_node visit_all visit_node visit_parents set_state
    scpefe.Snapshot.Ancestors.zeros ids bytes_eq
accepted_ancestors = refl

validate_ancestor_graph-IsTopological_example :
    (order : List ℕ) × IsTopological ancestors order
    × ((i : ℕ) → i < length ancestors → IsAmong i order)
validate_ancestor_graph-IsTopological_example =
    validate_ancestor_graph-IsTopological ancestors default_limits accepted_ancestors

decode_snapshot-create-ne-fault_example :
    (decode_snapshot default_limits (encode provisional) ≢ fault)
    × (create provisional default_limits ≢ fault)
decode_snapshot-create-ne-fault_example =
    decode_snapshot-create-ne-fault default_limits (encode provisional) provisional
