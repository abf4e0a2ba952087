-- ===== src/Snapshot/Encoding.antt =====
-- `encode` of src/format/snapshot_revision.cpp.
use scpefe.Base.{Bytes, List, [], false, if◌then◌else◌, is_empty, length, ℕ, ◌+◌, ◌∷◌}
use scpefe.Cbor.Reader.{bytes}
use scpefe.Cbor.Writer.{
  Writes, put_array, put_boolean, put_bytes, put_map, put_text, put_unsigned, ◌▷◌,
}
use scpefe.Snapshot.Data.{Node, SnapshotData, ids, parent_count}

unfoldable pub put_ids : List Bytes → Writes
put_ids [] output = output
put_ids (id ∷ rest) output = put_ids rest (output ▷ put_bytes id)

abbrev pub put_parents : Bytes → Writes
put_parents bytes output =
    output ▷ put_array (parent_count bytes) ▷ put_ids (ids (parent_count bytes) bytes)

unfoldable pub put_nodes : List Node → Writes
unfolding put_ids ids
put_nodes [] output = output
put_nodes (node ∷ nodes) output =
    put_nodes nodes
      (output ▷ put_array 2 ▷ put_bytes node.revision_id ▷ put_parents node.parent_revision_ids)

-- How many of the optional fields are written.
abbrev pub optional_fields : SnapshotData → ℕ
optional_fields d =
    (if is_empty d.ancestor_graph then 0 else 1)
    + (if d.manually_sealed then 0 else 2)
    + (if is_empty d.event_type then 0 else 2)

unfoldable pub put_required : SnapshotData → Writes
unfolding put_ids ids
put_required d output =
    output
    ▷ put_unsigned 1
    ▷ put_unsigned 1
    ▷ put_unsigned 2
    ▷ put_parents d.parent_revision_ids
    ▷ put_unsigned 3
    ▷ put_unsigned d.timestamp_ms
    ▷ put_unsigned 4
    ▷ put_bytes d.slot_id
    ▷ put_unsigned 5
    ▷ put_text d.slot_identity_name
    ▷ put_unsigned 6
    ▷ put_text d.slot_identity_email
    ▷ put_unsigned 7
    ▷ put_text d.client_profile_name
    ▷ put_unsigned 8
    ▷ put_text d.client_profile_email
    ▷ put_unsigned 9
    ▷ put_text d.device_name
    ▷ put_unsigned 10
    ▷ put_bytes d.content_hash
    ▷ put_unsigned 11
    ▷ put_map 3
    ▷ put_unsigned 1
    ▷ put_unsigned 0
    ▷ put_unsigned 2
    ▷ put_unsigned (length d.content)
    ▷ put_unsigned 3
    ▷ put_text d.content

unfoldable pub put_ancestors : List Node → Writes
unfolding put_nodes
put_ancestors graph output =
    if is_empty graph
    then output
    else output ▷ put_unsigned 12 ▷ put_array (length graph) ▷ put_nodes graph

unfoldable pub put_provisional : SnapshotData → Writes
put_provisional d output =
    if d.manually_sealed
    then output
    else output
      ▷ put_unsigned 13
      ▷ put_boolean false
      ▷ put_unsigned 14
      ▷ put_bytes d.provisional_base_revision

unfoldable pub put_event : SnapshotData → Writes
put_event d output =
    if is_empty d.event_type
    then output
    else output
      ▷ put_unsigned 15
      ▷ put_text d.event_type
      ▷ put_unsigned 16
      ▷ put_text d.event_detail

unfoldable pub encode : SnapshotData → Bytes
unfolding put_required put_ancestors put_provisional put_event
encode d =
    []
    ▷ put_map (11 + optional_fields d)
    ▷ put_required d
    ▷ put_ancestors d.ancestor_graph
    ▷ put_provisional d
    ▷ put_event d
