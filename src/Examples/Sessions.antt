-- ===== src/Examples/Sessions.antt =====
-- Runs of the transitions of src/container/container_state.cpp.
use scpefe.Base.{List, [], false, fault, none, ok, refl, some, true, ◌∷◌, ◌≡◌, ◌≢◌}
use scpefe.State.{apply}
use scpefe.State.Effects.{apply-clear_display, clears_display}
use scpefe.State.Freshness.{Rising, ids_of, is_adopt, is_publish, run_fresh}
use scpefe.State.Host.{Serves, run-Serves}
use scpefe.State.Invariant.{IsWellFormed, apply-IsWellFormed, apply-ne-fault}
use scpefe.State.Late.{IsStale, ended_stays-IsStale}
use scpefe.State.Protocol.{Moves, apply-Moves, resting, under_way}
use scpefe.State.Reports.{Leads, report-Leads}
use scpefe.State.Runs.{run}
use scpefe.State.Types.{
  ContainerState, Permissions, StateTransition, TransitionResult, Unlock, adopt_candidate,
  ambiguous, clear_journal, editing, held, initial_state, is_unlocked, no_lease, open_envelope,
  publishing, recovery_required, save, unlocked, verified,
}
use scpefe.State.Writers.{IsBacked, run-IsBacked}

abbrev owner_rights : Permissions
owner_rights = record { can_edit = true; can_add_passwords = true; can_remove_passwords = true }

abbrev owner : Unlock
owner = record {
  slot_id = 7 ∷ [];
  permissions = owner_rights;
  may_attempt_edit = true;
  authenticated_target_wrapper = false;
  authenticated_lease = no_lease;
}

-- Unlock, edit, save under id 1, and a result that leaves the outcome open.
abbrev saving : List StateTransition
saving =
    StateTransition.open_document
    ∷ StateTransition.unlock owner
    ∷ StateTransition.acquire_edit held
    ∷ StateTransition.begin_publication 1 save
    ∷ StateTransition.acknowledge_publication 1 ambiguous
    ∷ []

abbrev editing_state : ContainerState
editing_state = record initial_state {
  access = open_envelope;
  screen = unlocked;
  active_slot = some (7 ∷ []);
  permissions = owner_rights;
  edit = editing;
  lease = held;
}

abbrev publishing_state : ContainerState
publishing_state = record editing_state {
  publication = publishing;
  operation_id = some 1;
  last_operation_id = 1;
  publication_kind = some save;
}

saving_end :
    (run initial_state saving).0 ≡ record publishing_state { publication = recovery_required }
unfolding run apply
saving_end = refl

publishing_state-IsWellFormed : IsWellFormed publishing_state
publishing_state-IsWellFormed = record {
  access_ok = tt;
  screen_ok = (7 ∷ [], refl);
  edit_ok = (refl, refl);
  rights_ok = refl;
  target_ok = refl;
  attention_ok = λ e. cc;
  phase_ok = refl;
  id_ok = refl;
}

abbrev published : StateTransition
published = StateTransition.acknowledge_publication 1 verified

abbrev adopting : TransitionResult
adopting = record {
  state = record editing_state { last_operation_id = 1 };
  effects =
      record { kind = adopt_candidate; operation_id = 1 }
      ∷ record { kind = clear_journal; operation_id = 1 }
      ∷ [];
}

publishes_once : apply publishing_state published ≡ ok adopting
unfolding apply
publishes_once = refl

apply-IsWellFormed_example : IsWellFormed adopting.state
apply-IsWellFormed_example =
    apply-IsWellFormed publishing_state published publishing_state-IsWellFormed publishes_once

apply-ne-fault_example : apply publishing_state published ≢ fault
apply-ne-fault_example = apply-ne-fault publishing_state published publishing_state-IsWellFormed

apply-clear_display_example :
    (is_unlocked publishing_state.screen ≡ true
      → is_unlocked adopting.state.screen ≡ false
      → clears_display adopting.effects ≡ true)
    × (clears_display adopting.effects ≡ true → is_unlocked adopting.state.screen ≡ false)
apply-clear_display_example = apply-clear_display publishing_state published publishes_once

apply-Moves_example : Moves (under_way 1 save) published resting
apply-Moves_example =
    apply-Moves publishing_state published publishing_state-IsWellFormed publishes_once

-- The result arrives again after the document was closed and opened.
ended_stays-IsStale_example :
    IsStale (run adopting.state (StateTransition.close ∷ StateTransition.open_document ∷ [])).0 1
ended_stays-IsStale_example =
    ended_stays-IsStale publishing_state published 1
      (StateTransition.close ∷ StateTransition.open_document ∷ []) publishing_state-IsWellFormed
      refl publishes_once (λ e. cc)

run-IsBacked_example : IsBacked (run initial_state saving).0
run-IsBacked_example = run-IsBacked saving

report-Leads_example : Leads publishing_state published resting
report-Leads_example = report-Leads publishing_state published refl (Moves.adopt refl)

run_fresh_example :
    Rising 1 (ids_of is_publish (run initial_state saving).1)
    × Rising 1 (ids_of is_adopt (run initial_state saving).1)
run_fresh_example = run_fresh saving

run-Serves_example : Serves (run initial_state saving).0 false none (run initial_state saving).1
run-Serves_example = run-Serves saving
