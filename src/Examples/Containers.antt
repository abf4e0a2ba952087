-- ===== src/Examples/Containers.antt =====
-- Publication results that a container of src/container/container.cpp installs.
use scpefe.Base.{
  Bytes, Outcome, [], arith, bytes_eq, err, false, none, ok, refl, some, true, ◌∷◌, ◌≡◌, ◌⊎◌,
}
use scpefe.Cbor.Reader.{bytes}
use scpefe.Container.Adoption.{
  Adopts, SameDocument, acknowledge_save-Adopts, acknowledge_save-SameDocument, resolve_save-Adopts,
  submitted_text_kept,
}
use scpefe.Container.Content.{submit_content}
use scpefe.Container.Install.{acknowledge_save, install_transition, resolve_save}
use scpefe.Container.Opening.{
  open_document, Retained, acknowledges, called, called-committed_bytes, open_document-unchanged,
}
use scpefe.Container.Session.{
  Container, ContainerCandidate, EditingLeaseData, Thrown, UnlockedContainerData, state_error,
}
use scpefe.State.{apply}
use scpefe.State.Types.{
  ContainerState, Permissions, StateTransition, ambiguous, editing, held, initial_state,
  invalid_transition, open_envelope, publishing, recover_candidate, recovery_required, save,
  unlocked, verified,
}
use scpefe.Text.{valid_canonical_document_text, valid_utf8}

abbrev held_lease : EditingLeaseData
held_lease = record {
  session_id = 9 ∷ [];
  heartbeat_counter = 4;
  holder_utc_ms = 1000;
  duration_ms = 500;
  holder_name = 0x61 ∷ [];
  holder_email = 0x62 ∷ [];
  device_name = 0x63 ∷ [];
  active = true;
}

abbrev image : UnlockedContainerData
image = record {
  document_id = 5 ∷ [];
  slot_id = 7 ∷ [];
  permissions = 7;
  recovery_slot = false;
  owner_slot = true;
  must_be_changed = false;
  content_type = 0;
  editing_lease = held_lease;
  graph_head = 1 ∷ [];
}

abbrev all_rights : Permissions
all_rights = record { can_edit = true; can_add_passwords = true; can_remove_passwords = true }

abbrev editor_state : ContainerState
editor_state = record initial_state {
  access = open_envelope;
  screen = unlocked;
  active_slot = some (7 ∷ []);
  permissions = all_rights;
  edit = editing;
  lease = held;
}

-- A save that discards the text it was prepared from.
abbrev saved : ContainerCandidate
saved = record {
  operation_id = 1;
  bytes = 2 ∷ 3 ∷ [];
  adopted_data = image;
  submitted_generation = 0;
  discard = true;
  removes_active_slot = false;
  slot_change = false;
  lease_change = false;
  lease_held_after = false;
  activity_backup = none;
  lease_session_after = [];
  discarded_content = [];
}

abbrev idle_container : Container
idle_container = record {
  committed_bytes = 1 ∷ [];
  target_bytes = [];
  document_id = some (5 ∷ []);
  unlocked = some image;
  content_clear = some (0x61 ∷ []);
  content_generation = 0;
  candidate = some saved;
  pending_activity = none;
  state = editor_state;
  transitioning = false;
  local_lease_session = none;
}

abbrev saving_container : Container
saving_container = record idle_container {
  state = record editor_state {
    publication = publishing;
    operation_id = some 1;
    last_operation_id = 1;
    publication_kind = some save;
  };
}

abbrev recovering_container : Container
recovering_container = record idle_container {
  state = record editor_state {
    publication = recovery_required;
    operation_id = some 1;
    last_operation_id = 1;
    publication_kind = some save;
  };
}

acknowledge_save-Adopts_example : Adopts (acknowledge_save saving_container 1 verified) saved
acknowledge_save-Adopts_example =
    acknowledge_save-Adopts saving_container saved refl refl refl (refl, refl, refl, refl, λ e. cc)

resolve_save-Adopts_example : Adopts (resolve_save recovering_container 1 true) saved
resolve_save-Adopts_example =
    resolve_save-Adopts recovering_container saved refl refl refl (refl, refl, refl, refl, λ e. cc)

leaves_recovery :
    (acknowledge_save saving_container 1 ambiguous).1
    ≡ ok (record {
      state = recovering_container.state;
      effects = record { kind = recover_candidate; operation_id = 1 } ∷ [];
    })
unfolding acknowledge_save install_transition apply
leaves_recovery = ground arith

acknowledge_save-SameDocument_example :
    SameDocument (acknowledge_save saving_container 1 ambiguous).0 saving_container
    × ((acknowledge_save saving_container 1 ambiguous).0.candidate ≡ some saved)
acknowledge_save-SameDocument_example =
    acknowledge_save-SameDocument saving_container saved 1 ambiguous refl (λ e. cc) leaves_recovery

abbrev typed : Container
typed = record saving_container { content_clear = some (0x62 ∷ []); content_generation = 1 }

types : submit_content saving_container (0x62 ∷ []) ≡ ok typed
unfolding submit_content valid_canonical_document_text valid_utf8
types = refl

submitted_text_kept_example :
    (install_transition typed (StateTransition.acknowledge_publication 1 verified)).0.content_clear
    ≡ some (0x62 ∷ [])
submitted_text_kept_example =
    submitted_text_kept saving_container saved (0x62 ∷ [])
      (StateTransition.acknowledge_publication 1 verified) types refl (omega arith) (omega arith)
      refl

-- A verified result puts the candidate's bytes in the place of the image.
called-committed_bytes_example :
    ((called saving_container (acknowledges 1 verified)).committed_bytes ≡ 1 ∷ [])
    ⊎ ((verified ≡ verified)
        × Retained saving_container 1
            (called saving_container (acknowledges 1 verified)).committed_bytes)
called-committed_bytes_example = called-committed_bytes saving_container (acknowledges 1 verified)

abbrev validate : Bytes → Outcome Thrown (Unit {0})
validate bytes = ok tt

-- A document is open already.
refuses_second :
    (open_document validate idle_container (4 ∷ [])).1 ≡ err (state_error invalid_transition)
unfolding open_document bytes_eq
refuses_second = refl

open_document-unchanged_example :
    (open_document validate idle_container (4 ∷ [])).0 ≡ idle_container
open_document-unchanged_example =
    open_document-unchanged validate idle_container (4 ∷ []) (state_error invalid_transition)
      refuses_second
