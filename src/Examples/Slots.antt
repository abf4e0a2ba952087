-- ===== src/Examples/Slots.antt =====
-- Slots of src/format/revision_graph.cpp, and changes of src/container/password_slots.cpp.
use scpefe.Base.{
  All, Bytes, List, [], arith, bytes_eq, false, get_elem?, none, ok, refl, some, true, ◌∷◌, ◌≡◌,
}
use scpefe.Cbor.Limits.{default_limits}
use scpefe.Cbor.Reader.{boolean, head, text, unsigned_integer}
use scpefe.Cbor.Reading.{at}
use scpefe.Graph.Accepted.{IsAccepted, parse_slots-IsCollection}
use scpefe.Graph.Body.{is_whole}
use scpefe.Graph.Changes.{Actor, SlotChange, SlotChangeKind, apply_change}
use scpefe.Graph.Collections.{IsCollection}
use scpefe.Graph.Content.{
  anchor_step, apply_delta, find_anchor, find_index, forward, forward_step, is_content, piece,
  pieces, reconstruct_at, replay,
}
use scpefe.Graph.Lineage.{
  Agrees, Shares, assess_target, compare_records, divergent, divergent_target, find_record,
  is_canonical,
}
use scpefe.Graph.Others.{unmanaged_slots_kept}
use scpefe.Graph.Reconstruction.{IsText, KeepsText, reconstruct_at-IsText}
use scpefe.Graph.Records.{RevisionGraph, RevisionLease, RevisionRecord, RevisionSlot, no_fields}
use scpefe.Graph.Slots.{
  fits, has_id, has_management_id, key, parse_slots, read_entry, read_slot, read_slots,
}
use scpefe.Text.{valid_canonical_document_text, valid_utf8}
use scpefe.Cbor.Reader

abbrev encoded : Bytes
encoded =
    0x81 ∷ 0xa7 ∷ 1 ∷ 0x50 ∷ 7 ∷ 7 ∷ 7 ∷ 7 ∷ 7 ∷ 7 ∷ 7 ∷ 7 ∷ 7 ∷ 7 ∷ 7 ∷ 7 ∷ 7 ∷ 7 ∷ 7 ∷ 7 ∷ 2 ∷ 7
    ∷ 3 ∷ 0xf4 ∷ 4 ∷ 0 ∷ 5 ∷ 0x50 ∷ 8 ∷ 8 ∷ 8 ∷ 8 ∷ 8 ∷ 8 ∷ 8 ∷ 8 ∷ 8 ∷ 8 ∷ 8 ∷ 8 ∷ 8 ∷ 8 ∷ 8 ∷ 8
    ∷ 6 ∷ 0x61 ∷ 0x61 ∷ 7 ∷ 0x61 ∷ 0x62 ∷ []

abbrev owner_id : Bytes
owner_id = 7 ∷ 7 ∷ 7 ∷ 7 ∷ 7 ∷ 7 ∷ 7 ∷ 7 ∷ 7 ∷ 7 ∷ 7 ∷ 7 ∷ 7 ∷ 7 ∷ 7 ∷ 7 ∷ []

abbrev owner_slot : RevisionSlot
owner_slot = record {
  id = owner_id;
  management_id = 8 ∷ 8 ∷ 8 ∷ 8 ∷ 8 ∷ 8 ∷ 8 ∷ 8 ∷ 8 ∷ 8 ∷ 8 ∷ 8 ∷ 8 ∷ 8 ∷ 8 ∷ 8 ∷ [];
  permissions = 7;
  role = 0;
  must_be_changed = false;
  name = 0x61 ∷ [];
  email = 0x62 ∷ [];
}

parses : parse_slots default_limits (at encoded 0) ≡ ok (owner_slot ∷ [], at [] 50)
unfolding parse_slots read_slots read_entry fits key read_slot has_id has_management_id bytes_eq
    Reader.array Reader.map Reader.text Reader.bytes unsigned_integer boolean valid_utf8 head
parses = refl

abbrev guest : RevisionSlot
guest = record {
  id = 5 ∷ [];
  management_id = 6 ∷ [];
  permissions = 1;
  role = 1;
  must_be_changed = false;
  name = 0x63 ∷ [];
  email = 0x64 ∷ [];
}

abbrev two_slots : List RevisionSlot
two_slots = owner_slot ∷ guest ∷ []

abbrev owner_actor : Actor
owner_actor = record { slot_id = owner_id; permissions = 7; must_be_changed = false }

abbrev guest_actor : Actor
guest_actor = record { slot_id = 5 ∷ []; permissions = 1; must_be_changed = false }

abbrev renaming : SlotChange
renaming = record {
  kind = SlotChangeKind.reconcile_identity;
  target_id = [];
  new_password = [];
  permissions = 0;
  name = 0x65 ∷ [];
  email = 0x66 ∷ [];
}

renames :
    apply_change true true guest_actor [] [] two_slots renaming
    ≡ ok (record {
      slots = owner_slot ∷ record guest { name = 0x65 ∷ []; email = 0x66 ∷ [] } ∷ [];
      affected_id = 5 ∷ [];
      wrapper_index = 0;
      wrapper_mode = 0;
      remove_active = false;
    })
unfolding apply_change bytes_eq valid_utf8
renames = refl

parse_slots-IsCollection_example : IsAccepted (owner_slot ∷ []) × IsCollection (owner_slot ∷ [])
unfolding bytes_eq
parse_slots-IsCollection_example =
    parse_slots-IsCollection default_limits (at encoded 0) (at [] 50) parses

abbrev recovery_slot : RevisionSlot
recovery_slot = record {
  id = 2 ∷ [];
  management_id = 2 ∷ [];
  permissions = 7;
  role = 2;
  must_be_changed = false;
  name = [];
  email = [];
}

abbrev three_slots : List RevisionSlot
three_slots = owner_slot ∷ guest ∷ recovery_slot ∷ []

abbrev invitation : SlotChange
invitation = record {
  kind = SlotChangeKind.add_invitation;
  target_id = [];
  new_password = 0x70 ∷ [];
  permissions = 1;
  name = 0x65 ∷ [];
  email = [];
}

abbrev invited : RevisionSlot
invited = record {
  id = 4 ∷ [];
  management_id = 3 ∷ [];
  permissions = 1;
  role = 1;
  must_be_changed = true;
  name = 0x65 ∷ [];
  email = [];
}

abbrev four_slots : List RevisionSlot
four_slots = owner_slot ∷ guest ∷ invited ∷ recovery_slot ∷ []

other_id : bytes_eq owner_slot.id guest_actor.slot_id ≡ false
unfolding bytes_eq
other_id = refl

unmanaged_slots_kept_example :
    get_elem? (owner_slot ∷ record guest { name = 0x65 ∷ []; email = 0x66 ∷ [] } ∷ []) 0
    ≡ some owner_slot
unmanaged_slots_kept_example =
    unmanaged_slots_kept true true guest_actor [] [] two_slots renaming 0 owner_slot refl refl
      renames refl other_id

-- A checkpoint of "ab", and a delta that copies its second byte and inserts "c" behind it.
abbrev root : RevisionRecord
root = record {
  id = 1 ∷ [];
  fields = record no_fields { kind = some 0; content_hash = some [] };
  immutable_cbor = [];
  storage = 1;
  body = some (record { size = 2; text = 0x61 ∷ 0x62 ∷ []; segments = [] }, []);
  provisional = false;
  resolved_by = none;
  foreign = false;
  record_cbor = [];
  text_available = false;
}

abbrev edited : RevisionRecord
edited = record root {
  id = 2 ∷ [];
  fields = record no_fields {
    kind = some 1;
    content_parent = some (1 ∷ []);
    content_hash = some [];
  };
  storage = 2;
  body = some (
    record {
      size = 2;
      text = [];
      segments =
          record { inserts = false; start = 1; count = 1; text = [] }
          ∷ record { inserts = true; start = 0; count = 1; text = 0x63 ∷ [] }
          ∷ [];
    },
    [],
  );
}

reconstructs :
    reconstruct_at (λ bs. []) default_limits (root ∷ edited ∷ []) 1 ≡ ok (some (0x62 ∷ 0x63 ∷ []))
unfolding reconstruct_at find_anchor anchor_step is_whole find_index replay forward forward_step
    apply_delta pieces piece bytes_eq valid_canonical_document_text valid_utf8
reconstructs = refl

keep_text : All (KeepsText default_limits) (root ∷ edited ∷ [])
unfolding is_whole is_content valid_canonical_document_text valid_utf8
keep_text = ((λ e. refl), ((λ e. cc), tt))

reconstruct_at-IsText_example :
    IsText default_limits (reconstruct_at (λ bs. []) default_limits (root ∷ edited ∷ []) 1)
reconstruct_at-IsText_example =
    reconstruct_at-IsText (λ bs. []) default_limits (root ∷ edited ∷ []) 1 (omega arith) keep_text

-- Two graphs that share the checkpoint and differ in the record behind it.
abbrev free_lease : RevisionLease
free_lease = record {
  session_id = [];
  heartbeat_counter = 0;
  holder_utc_ms = 0;
  duration_ms = 1;
  holder_name = [];
  holder_email = [];
  device = [];
  active = false;
}

abbrev ours : RevisionGraph
ours = record {
  records = root ∷ edited ∷ [];
  head = 2 ∷ [];
  content_head = 2 ∷ [];
  slots = [];
  lease = free_lease;
  slots_cbor = [];
  owner_cbor = [];
  lease_cbor = [];
  features_cbor = [];
  extensions_cbor = none;
  encoded = [];
  max_text_bytes = 0;
}

abbrev theirs : RevisionGraph
theirs = record ours { records = root ∷ record edited { id = 3 ∷ [] } ∷ []; head = 3 ∷ [] }

diverges : assess_target ours theirs ≡ ok divergent
unfolding assess_target compare_records find_record bytes_eq
diverges = refl

divergent_target_example :
    (is_canonical (find_record ours.head theirs.records) ≡ false)
    × (find_record theirs.head ours.records ≡ none)
    × Agrees ours.records theirs.records
    × Shares ours.records theirs.records
divergent_target_example = divergent_target ours theirs diverges
