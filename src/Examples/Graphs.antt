-- ===== src/Examples/Graphs.antt =====
-- Graphs of src/format/revision_graph.cpp, with a hash function of zeros.
use mathlib.Core.Bool.{xor}
use scpefe.Base.{
  Bytes, Outcome, [], arith, bytes_eq, false, fault, length, none, ok, refl, some, true, ◌++◌, ◌∷◌,
  ◌≡◌, ◌≢◌,
}
use scpefe.Cbor.Items.{ReadsBack}
use scpefe.Cbor.Limits.{RevisionError, default_limits}
use scpefe.Cbor.Reader.{boolean, finished, head, unsigned_integer}
use scpefe.Cbor.Writer.{header}
use scpefe.Graph.Body.{parse_body, parse_record}
use scpefe.Graph.Content.{apply_delta, is_content}
use scpefe.Graph.Records.{RevisionGraph, RevisionLease, RevisionRecord, RevisionSlot, no_fields}
use scpefe.Graph.Slots.{
  fits, has_id, has_management_id, lease_fits, parse_lease, parse_owner, parse_slots, read_entry,
  read_slots, zero_session,
}
use scpefe.History.Bodies.{body_step, check_bodies}
use scpefe.History.Compactions.{check_events, is_compacted}
use scpefe.History.DecodeEnds.{decode-ne-fault}
use scpefe.History.Decoding.{
  counted_records, decode, graph_body, graph_fields, is_owner, last_field, read_end, read_features,
  read_records, validated,
}
use scpefe.History.Delta.{
  common_prefix, common_suffix, copy_of, delta_body, insertion, merge_segments,
}
use scpefe.History.Encoding.{put_slot, records_cbor, replace_lease}
use scpefe.History.LeaseRoundTrip.{IsEncodable}
use scpefe.History.Line.{all_foreign_fit, check_line}
use scpefe.History.MergeBody.{apply_delta-parse_body, merge_body}
use scpefe.History.Merges.{check_merges}
use scpefe.History.Replacement.{leased, replace_lease-decode}
use scpefe.History.Saving.{baseline, create_baseline, reconstruct, unheld_lease}
use scpefe.History.Validation.{validate_graph}
use scpefe.Text.{code_point, utf8_loop, valid_canonical_document_text, valid_utf8}
use scpefe.Text.Utf8.{utf8}
use scpefe.Cbor.Reader

abbrev zeros : Bytes → Bytes
zeros input = zero_session ++ zero_session

abbrev owner : RevisionSlot
owner = record {
  id = 7 ∷ 7 ∷ 7 ∷ 7 ∷ 7 ∷ 7 ∷ 7 ∷ 7 ∷ 7 ∷ 7 ∷ 7 ∷ 7 ∷ 7 ∷ 7 ∷ 7 ∷ 7 ∷ [];
  management_id = 8 ∷ 8 ∷ 8 ∷ 8 ∷ 8 ∷ 8 ∷ 8 ∷ 8 ∷ 8 ∷ 8 ∷ 8 ∷ 8 ∷ 8 ∷ 8 ∷ 8 ∷ 8 ∷ [];
  permissions = 7;
  role = 0;
  must_be_changed = false;
  name = 0x61 ∷ [];
  email = 0x62 ∷ [];
}

-- The text "a" on the device "d".
abbrev input : Bytes
input = baseline zeros owner none (0x64 ∷ []) (0x61 ∷ []) 5

-- What a decoding returned.
abbrev result : Outcome RevisionError RevisionGraph → RevisionGraph
result (ok g) = g
result _ = record {
  records = [];
  head = [];
  content_head = [];
  slots = [];
  lease = unheld_lease;
  slots_cbor = [];
  owner_cbor = [];
  lease_cbor = [];
  features_cbor = [];
  extensions_cbor = none;
  encoded = [];
  max_text_bytes = 0;
}

abbrev graph : RevisionGraph
graph = result (decode zeros default_limits input)

opened : decode zeros default_limits input ≡ ok graph
unfolding xor head unsigned_integer boolean Reader.array Reader.map Reader.bytes Reader.text
    finished header has_id has_management_id read_entry fits read_slots parse_slots parse_owner
    parse_lease parse_record check_line all_foreign_fit check_merges body_step check_bodies
    check_events is_compacted validate_graph is_owner read_features read_end read_records last_field
    counted_records graph_body graph_fields validated put_slot create_baseline reconstruct bytes_eq
    valid_utf8 valid_canonical_document_text
opened = refl

abbrev held : RevisionLease
held = record {
  session_id = 1 ∷ 1 ∷ 1 ∷ 1 ∷ 1 ∷ 1 ∷ 1 ∷ 1 ∷ 1 ∷ 1 ∷ 1 ∷ 1 ∷ 1 ∷ 1 ∷ 1 ∷ 1 ∷ [];
  heartbeat_counter = 3;
  holder_utc_ms = 9;
  duration_ms = 600000;
  holder_name = 0x61 ∷ [];
  holder_email = 0x62 ∷ [];
  device = 0x64 ∷ [];
  active = true;
}

held-IsEncodable : IsEncodable held
unfolding lease_fits bytes_eq valid_utf8 utf8_loop code_point utf8
held-IsEncodable = record {
  session = refl;
  counter = omega arith;
  utc = omega arith;
  name = (omega arith, refl);
  email = (omega arith, refl);
  device = (omega arith, refl);
  fits = refl;
}

leased_size : length (leased graph held).encoded ≡ 350
unfolding records_cbor xor head unsigned_integer boolean Reader.array Reader.map Reader.bytes
    Reader.text finished header has_id has_management_id read_entry fits read_slots parse_slots
    parse_owner parse_lease parse_record check_line all_foreign_fit check_merges body_step
    check_bodies check_events is_compacted validate_graph is_owner read_features read_end
    read_records last_field counted_records graph_body graph_fields validated put_slot
    create_baseline reconstruct bytes_eq valid_utf8 valid_canonical_document_text
leased_size = refl

replace_lease-decode_example :
    (replace_lease zeros graph held ≡ ok (leased graph held).encoded)
    × (decode zeros default_limits (leased graph held).encoded ≡ ok (leased graph held))
replace_lease-decode_example =
    replace_lease-decode zeros input graph held opened held-IsEncodable (omega (arith, leased_size))

decode-ne-fault_example : decode zeros default_limits input ≢ fault
decode-ne-fault_example = decode-ne-fault zeros default_limits input

-- "ab", which is merged to "acb".
abbrev local_text : Bytes
local_text = 0x61 ∷ 0x62 ∷ []

abbrev merged_text : Bytes
merged_text = 0x61 ∷ 0x63 ∷ 0x62 ∷ []

abbrev merging : RevisionRecord
merging = record {
  id = [];
  fields = no_fields;
  immutable_cbor = [];
  storage = 2;
  body = some (merge_body local_text merged_text, []);
  provisional = false;
  resolved_by = none;
  foreign = false;
  record_cbor = [];
  text_available = false;
}

apply_delta-parse_body_example :
    ReadsBack
      (parse_body default_limits 2)
      (delta_body 3 (merge_segments local_text merged_text))
      (merge_body local_text merged_text)
    × (apply_delta default_limits merging local_text ≡ ok merged_text)
unfolding is_content valid_canonical_document_text valid_utf8 utf8_loop code_point utf8
apply_delta-parse_body_example =
    apply_delta-parse_body local_text merged_text [] merging (omega arith) refl refl

-- The delta copies "a", inserts "c" and copies "b".
merged_segments :
    merge_segments local_text merged_text ≡ copy_of 0 1 ∷ insertion (0x63 ∷ []) ∷ copy_of 1 1 ∷ []
unfolding merge_segments common_prefix common_suffix
merged_segments = refl
