-- ===== src/Container/Install.antt =====
-- `Container::install_transition`, `acknowledge_save`, `resolve_save` and `transition` of
-- src/container/container.cpp. Observers, which are only told of the result, are left out.
use mathlib.Core.Logic.{ite}
use native.Mathlib.Decide.{ℕ_discrete}
use scpefe.Base.{
  Bool, Bytes, Option, Outcome, [], err, false, fault, if◌then◌else◌, none, not, ok, some, true, ℕ,
  ◌&&◌, ◌++◌, ◌==◌, ◌||◌,
}
use scpefe.Container.Session.{
  Container, ContainerCandidate, PendingActivity, UnlockedContainerData, permission_bits, rights_of,
}
use scpefe.State.{apply}
use scpefe.State.Session.{value_or}
use scpefe.State.Steps.{is_outcome_publication}
use scpefe.State.Types.{
  ContainerState, PublicationOutcome, SlotId, StateError, StateTransition, TransitionResult,
  definite_failure, invalid_transition, stale_operation, verified,
}

-- A call returns the container as it is afterwards, also where it throws.
abbrev pub Installs : Type 0
Installs = Container × Outcome StateError TransitionResult

pub ContainerState-discrete : Discrete ContainerState
ContainerState-discrete = hlevel ℕ_discrete

abbrev pub is_verified : StateTransition → Bool
is_verified (StateTransition.acknowledge_publication id verified) = true
is_verified (StateTransition.resolve_ambiguity id true) = true
is_verified _ = false

abbrev pub is_rejected : StateTransition → Bool
is_rejected (StateTransition.acknowledge_publication id definite_failure) = true
is_rejected (StateTransition.resolve_ambiguity id false) = true
is_rejected _ = false

abbrev pub is_close : StateTransition → Bool
is_close StateTransition.close = true
is_close _ = false

abbrev installs_rights : StateTransition → Bool
installs_rights (StateTransition.unlock u) = true
installs_rights (StateTransition.apply_target_permissions p b) = true
installs_rights _ = false

-- The image, the clear text and the journal of the host action after the candidate's adoption.
abbrev adopted_content : Container → ContainerCandidate → Option Bytes
adopted_content c k =
    if k.discard && c.content_generation == k.submitted_generation
    then some k.discarded_content
    else c.content_clear

abbrev adopted_activity : Container → ContainerState → ContainerCandidate → Option PendingActivity
adopted_activity c before k = elim k.activity_backup [
  | some backup ↦ some (record {
    attempt_operation_id = value_or before.operation_id 0;
    attempt_head = k.adopted_data.graph_head;
    backup = backup;
    succeeded = none;
  })
  | none ↦ if is_outcome_publication before.publication_kind then none else c.pending_activity
]

unfoldable pub adopt : Container → ContainerState → ContainerCandidate → Container
adopt c before k = record c {
  committed_bytes = k.bytes;
  unlocked = if k.removes_active_slot then none else some k.adopted_data;
  content_clear = adopted_content c k;
  candidate = none;
  pending_activity = adopted_activity c before k;
}

-- The transition that follows the adoption, if any. An attempt has an adopted image.
unfoldable pub follow_up : ContainerCandidate → Option StateTransition
follow_up k =
    if k.removes_active_slot
    then some StateTransition.lock
    else if k.slot_change
    then some (
        StateTransition.authenticated_slot_permissions (rights_of k.adopted_data.permissions)
          (not k.adopted_data.must_be_changed))
    else if k.lease_change
    then some (StateTransition.published_lease k.lease_held_after)
    else none

abbrev pub session_after : Container → ContainerCandidate → Option SlotId
session_after c k =
    if k.removes_active_slot || k.slot_change || not k.lease_change
    then c.local_lease_session
    else if k.lease_held_after
    then some k.lease_session_after
    else none

-- The nested call: where it throws, the container keeps what was installed so far.
unfoldable pub nested : Container → TransitionResult → Option StateTransition → Installs
nested c r none = (c, ok r)
nested c r (some t) = elim (apply c.state t) [
  | ok n ↦ (
    record c { state = n.state },
    ok (record { state = n.state; effects = r.effects ++ n.effects }),
  )
  | err e ↦ (c, err e)
  | fault ↦ (c, fault)
]

unfoldable pub settle : Container → ContainerState → StateTransition → TransitionResult → Installs
unfolding adopt follow_up nested
settle c before t r = elim c.candidate [
  | none ↦ (c, ok r)
  | some k ↦
      if is_verified t
      then nested (record (adopt c before k) { local_lease_session = session_after c k }) r
          (follow_up k)
      else if is_rejected t
      then (record c { candidate = none }, ok r)
      else (c, ok r)
]

-- The clear rights of the unlocked slot follow the installed state.
abbrev with_rights : Container → Option UnlockedContainerData → Container
with_rights c none = c
with_rights c (some u) = record c {
  unlocked = some (record u { permissions = permission_bits c.state.permissions });
}

-- `Close` forgets the document.
abbrev emptied : Container → Container
emptied c = record c {
  unlocked = none;
  content_clear = none;
  candidate = none;
  pending_activity = none;
  committed_bytes = [];
  target_bytes = [];
  document_id = none;
  local_lease_session = none;
}

unfoldable pub finish : StateTransition → Installs → Installs
finish t (c, ok r) =
    let rights = if installs_rights t then with_rights c c.unlocked else c in
    let kept = if is_close t then emptied rights else rights in
    (record kept { transitioning = false }, ok r)
finish t (c, err e) = (c, err e)
finish t (c, fault) = (c, fault)

unfoldable pub install_transition : Container → StateTransition → Installs
unfolding settle finish
install_transition c t =
    if c.transitioning then (c, err invalid_transition) else elim (apply c.state t) [
      | err e ↦ (c, err e)
      | fault ↦ (c, fault)
      | ok r ↦
          ite (ContainerState-discrete r.state c.state) (c, ok r)
            (finish t (settle (record c { transitioning = true; state = r.state }) c.state t r))
    ]

-- A result is taken only for the candidate that is retained.
abbrev names_candidate : Option ContainerCandidate → ℕ → Bool
names_candidate none id = false
names_candidate (some k) id = k.operation_id == id

unfoldable pub acknowledge_save : Container → ℕ → PublicationOutcome → Installs
acknowledge_save c id outcome =
    if names_candidate c.candidate id
    then install_transition c (StateTransition.acknowledge_publication id outcome)
    else (c, err stale_operation)

unfoldable pub resolve_save : Container → ℕ → Bool → Installs
resolve_save c id published =
    if names_candidate c.candidate id
    then install_transition c (StateTransition.resolve_ambiguity id published)
    else (c, err stale_operation)

abbrev is_public : StateTransition → Bool
is_public StateTransition.lock = true
is_public StateTransition.close = true
is_public StateTransition.release_edit = true
is_public (StateTransition.raise_attention a) = true
is_public _ = false

unfoldable pub transition : Container → StateTransition → Installs
transition c t = if is_public t then install_transition c t else (c, err invalid_transition)
