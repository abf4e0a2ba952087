-- ===== src/Graph/Records.antt =====
-- The data of src/format/revision_graph.hpp.
use scpefe.Base.{Bool, Bytes, List, Option, [], none, ℕ}

-- Ids of 32 bytes.
abbrev pub RevisionId : Type 0
RevisionId = Bytes

pub record RevisionSlot : Type 0 where
  pub id : Bytes
  pub management_id : Bytes
  pub permissions : ℕ
  pub role : ℕ
  pub must_be_changed : Bool
  pub name : Bytes
  pub email : Bytes

pub record OwnerIdentity : Type 0 where
  pub id : Bytes
  pub name : Bytes
  pub email : Bytes

pub record RevisionLease : Type 0 where
  pub session_id : Bytes
  pub heartbeat_counter : ℕ
  pub holder_utc_ms : ℕ
  pub duration_ms : ℕ
  pub holder_name : Bytes
  pub holder_email : Bytes
  pub device : Bytes
  pub active : Bool

pub record Segment : Type 0 where
  pub inserts : Bool
  pub start : ℕ
  pub count : ℕ
  pub text : Bytes

pub record Body : Type 0 where
  pub size : ℕ
  pub text : Bytes
  pub segments : List Segment

pub record EventFacts : Type 0 where
  pub cutoff : Option RevisionId
  pub retained : Option ℕ
  pub affected_slot : Option Bytes
  pub activity_status : Option ℕ
  pub detail : Bytes

abbrev pub no_facts : EventFacts
no_facts = record {
  cutoff = none;
  retained = none;
  affected_slot = none;
  activity_status = none;
  detail = [];
}

-- A field that the source leaves empty until its key is read, and asks for afterwards, is an
-- option.
pub record Immutable : Type 0 where
  pub kind : Option ℕ
  pub previous : Option RevisionId
  pub content_parent : Option RevisionId
  pub merge_sources : Option (List RevisionId)
  pub timestamp_ms : Option ℕ
  pub actor_slot : Option Bytes
  pub actor_name : Option Bytes
  pub actor_email : Option Bytes
  pub client_name : Option Bytes
  pub client_email : Option Bytes
  pub device : Option Bytes
  pub content_hash : Option RevisionId
  pub body_digest : Option RevisionId
  pub event_type : Option Bytes
  pub event_details : Option (EventFacts × Bytes)

abbrev pub no_fields : Immutable
no_fields = record {
  kind = none;
  previous = none;
  content_parent = none;
  merge_sources = none;
  timestamp_ms = none;
  actor_slot = none;
  actor_name = none;
  actor_email = none;
  client_name = none;
  client_email = none;
  device = none;
  content_hash = none;
  body_digest = none;
  event_type = none;
  event_details = none;
}

pub record RevisionRecord : Type 0 where
  pub id : RevisionId
  pub fields : Immutable
  pub immutable_cbor : Bytes
  pub storage : ℕ
  pub body : Option (Body × Bytes)
  pub provisional : Bool
  pub resolved_by : Option RevisionId
  pub foreign : Bool
  pub record_cbor : Bytes
  pub text_available : Bool

-- The fields 2, 3, 4, 8 and 9 are also kept as they were read; the last may be absent.
pub record RevisionGraph : Type 0 where
  pub records : List RevisionRecord
  pub head : RevisionId
  pub content_head : RevisionId
  pub slots : List RevisionSlot
  pub lease : RevisionLease
  pub slots_cbor : Bytes
  pub owner_cbor : Bytes
  pub lease_cbor : Bytes
  pub features_cbor : Bytes
  pub extensions_cbor : Option Bytes
  pub encoded : Bytes
  pub max_text_bytes : ℕ
