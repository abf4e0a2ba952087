-- ===== src/State/Invariant.antt =====
-- What holds of every state that src/container/container_state.cpp installs.
use scpefe.Base.{Bool, Option, arith, false, fault, none, ok, some, true, ℕ, ◌||◌, ◌≡◌, ◌≢◌}
use scpefe.State.{apply}
use scpefe.State.Steps.{coherent}
use scpefe.State.Types.{
  Access, ContainerState, EditMode, Lease, Permissions, PublicationKind, PublicationPhase, Screen,
  SlotId, StateTransition, TargetAccess, TransitionResult, awaiting_host_action, closed, editing,
  held, idle, initial_state, is_activity_outcome, is_attempt, is_calm, locked, no_attention,
  no_lease, no_permissions, open_envelope, outcome_pending, publishing, read_only,
  recovery_required, unlocked,
}

-- What the phase says of the kind of the candidate.
abbrev pub phase_fits : PublicationPhase → Option PublicationKind → Bool
phase_fits idle none = true
phase_fits publishing (some k) = true
phase_fits recovery_required (some k) = true
phase_fits awaiting_host_action (some k) = is_attempt k
phase_fits outcome_pending (some k) = is_attempt k || is_activity_outcome k
phase_fits _ _ = false

-- The operation in flight is the last one that was begun.
abbrev pub IdFits : PublicationPhase → Option ℕ → ℕ → Type 0
IdFits idle id last = id ≡ none
IdFits _ id last = id ≡ some last

abbrev pub target_coherent : Option TargetAccess → Bool
target_coherent none = true
target_coherent (some t) = coherent t.permissions

-- A locked screen leaves no slot, no rights and no edit mode; an open one has a slot.
abbrev pub ScreenFits : Screen → Option SlotId → Permissions → EditMode → Type 0
ScreenFits locked slot rights mode = (slot ≡ none) × (rights ≡ no_permissions) × (mode ≡ read_only)
ScreenFits unlocked slot rights mode = (id : SlotId) × (slot ≡ some id)

abbrev pub EditFits : EditMode → Permissions → Lease → Type 0
EditFits read_only rights lease = Unit
EditFits editing rights lease = (rights.can_edit ≡ true) × (lease ≡ held)

abbrev pub AccessFits : Access → ContainerState → Type 0
AccessFits open_envelope s = Unit
AccessFits closed s =
    (s.screen ≡ locked)
    × (s.target_access ≡ none)
    × (s.lease ≡ no_lease)
    × (s.attention ≡ no_attention)
    × (s.publication ≡ idle)

pub record IsWellFormed (s : ContainerState) : Type 0 where
  pub access_ok : AccessFits s.access s
  pub screen_ok : ScreenFits s.screen s.active_slot s.permissions s.edit
  pub edit_ok : EditFits s.edit s.permissions s.lease
  pub rights_ok : coherent s.permissions ≡ true
  pub target_ok : target_coherent s.target_access ≡ true
  pub attention_ok : is_calm s.attention ≡ false → s.publication ≡ idle
  pub phase_ok : phase_fits s.publication s.publication_kind ≡ true
  pub id_ok : IdFits s.publication s.operation_id s.last_operation_id

pub initial-IsWellFormed : IsWellFormed initial_state
initial-IsWellFormed = ground arith

-- Every transition that is accepted leads from a well-formed state to a well-formed state.
pub apply-IsWellFormed :
    (s : ContainerState) (t : StateTransition) {r : TransitionResult}
    → IsWellFormed s
    → apply s t ≡ ok r
    → IsWellFormed r.state
unfolding apply
apply-IsWellFormed s StateTransition.open_document v e = ground arith
apply-IsWellFormed s _ v e = ground arith

-- From a well-formed state no transition reads an empty optional: it is accepted or refused.
pub apply-ne-fault : (s : ContainerState) (t : StateTransition) → IsWellFormed s → apply s t ≢ fault
unfolding apply
apply-ne-fault s StateTransition.open_document v e = ground arith
apply-ne-fault s _ v e = ground arith
