-- ===== src/Snapshot/Data.antt =====
-- src/format/snapshot_revision_data.hpp. A list of revision ids of 32 bytes is one byte string in
-- the source.
use scpefe.Base.{Bool, Bytes, List, [], drop, length, suc, take, true, zero, ℕ, ◌%◌, ◌/◌, ◌==◌, ◌∷◌}
use scpefe.Cbor.Reader.{bytes}

pub record Node : Type 0 where
  pub revision_id : Bytes
  pub parent_revision_ids : Bytes

pub record SnapshotData : Type 0 where
  pub parent_revision_ids : Bytes
  pub timestamp_ms : ℕ
  pub slot_id : Bytes
  pub slot_identity_name : Bytes
  pub slot_identity_email : Bytes
  pub client_profile_name : Bytes
  pub client_profile_email : Bytes
  pub device_name : Bytes
  pub content_hash : Bytes
  pub content : Bytes
  pub ancestor_graph : List Node
  pub manually_sealed : Bool
  pub provisional_base_revision : Bytes
  pub event_type : Bytes
  pub event_detail : Bytes

-- The parts of 32 bytes; `count` is the number of whole parts.
unfoldable pub ids : ℕ → Bytes → List Bytes
ids zero bytes = []
ids (suc count) bytes = take 32 bytes ∷ ids count (drop 32 bytes)

abbrev pub parent_count : Bytes → ℕ
parent_count bytes = length bytes / 32

abbrev pub whole_ids : Bytes → Bool
whole_ids bytes = length bytes % 32 == 0

abbrev pub no_data : SnapshotData
no_data = record {
  parent_revision_ids = [];
  timestamp_ms = 0;
  slot_id = [];
  slot_identity_name = [];
  slot_identity_email = [];
  client_profile_name = [];
  client_profile_email = [];
  device_name = [];
  content_hash = [];
  content = [];
  ancestor_graph = [];
  manually_sealed = true;
  provisional_base_revision = [];
  event_type = [];
  event_detail = [];
}
