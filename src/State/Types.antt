-- ===== src/State/Types.antt =====
-- The state, the transition requests and the effects of src/container/container_state.hpp.
use scpefe.Base.{ℕ, Bool, true, false, Bytes, Option, none, List}

pub data Access : Type 0 where
  closed open_envelope : Access

pub data Screen : Type 0 where
  locked unlocked : Screen

pub data EditMode : Type 0 where
  read_only editing : EditMode

pub data Lease : Type 0 where
  no_lease held other_holder uncertain : Lease

pub data Attention : Type 0 where
  no_attention conflict target_replaced reauthenticate : Attention

pub data PublicationPhase : Type 0 where
  idle publishing awaiting_host_action outcome_pending recovery_required : PublicationPhase

pub data PublicationKind : Type 0 where
  save slot_change lease_change compaction : PublicationKind
  backup_attempt export_attempt activity_outcome : PublicationKind

pub data PublicationOutcome : Type 0 where
  verified definite_failure ambiguous : PublicationOutcome

pub record Permissions : Type 0 where
  pub can_edit : Bool
  pub can_add_passwords : Bool
  pub can_remove_passwords : Bool

abbrev pub SlotId : Type 0
SlotId = Bytes

pub record TargetAccess : Type 0 where
  pub slot_id : SlotId
  pub permissions : Permissions
  pub wrapper_changed : Bool

pub record ContainerState : Type 0 where
  pub access : Access
  pub screen : Screen
  pub active_slot : Option SlotId
  pub permissions : Permissions
  pub target_access : Option TargetAccess
  pub edit : EditMode
  pub lease : Lease
  pub attention : Attention
  pub publication : PublicationPhase
  pub operation_id : Option ℕ
  pub last_operation_id : ℕ
  pub publication_kind : Option PublicationKind

pub record Unlock : Type 0 where
  pub slot_id : SlotId
  pub permissions : Permissions
  pub may_attempt_edit : Bool
  pub authenticated_target_wrapper : Bool
  pub authenticated_lease : Lease

pub data StateTransition : Type 0 where
  open_document : StateTransition
  unlock : Unlock → StateTransition
  lock : StateTransition
  authenticated_slot_permissions : Permissions → Bool → StateTransition
  close : StateTransition
  acquire_edit : Lease → StateTransition
  release_edit : StateTransition
  published_lease : Bool → StateTransition
  apply_target_permissions : Permissions → Bool → StateTransition
  raise_attention : Attention → StateTransition
  clear_attention : StateTransition
  begin_publication : ℕ → PublicationKind → StateTransition
  acknowledge_publication : ℕ → PublicationOutcome → StateTransition
  complete_host_action : ℕ → Bool → StateTransition
  restore_pending_activity : ℕ → PublicationKind → StateTransition
  resolve_ambiguity : ℕ → Bool → StateTransition

pub data EffectKind : Type 0 where
  attempt_edit_lease start_heartbeat stop_heartbeat clear_display : EffectKind
  release_lease reread_target journal_candidate publish_candidate : EffectKind
  adopt_candidate clear_journal recover_candidate perform_backup : EffectKind
  perform_export record_success_outcome record_failure_outcome : EffectKind
  journal_activity_outcome preserve_unsaved_work : EffectKind

pub record RequiredEffect : Type 0 where
  pub kind : EffectKind
  pub operation_id : ℕ

pub record TransitionResult : Type 0 where
  pub state : ContainerState
  pub effects : List RequiredEffect

pub data StateError : Type 0 where
  invalid_transition stale_operation : StateError

-- `Permissions{}` and `ContainerState{}`.
abbrev pub no_permissions : Permissions
no_permissions = record {
  can_edit = false;
  can_add_passwords = false;
  can_remove_passwords = false;
}

abbrev pub initial_state : ContainerState
initial_state = record {
  access = closed;
  screen = locked;
  active_slot = none;
  permissions = no_permissions;
  target_access = none;
  edit = read_only;
  lease = no_lease;
  attention = no_attention;
  publication = idle;
  operation_id = none;
  last_operation_id = 0;
  publication_kind = none;
}

-- The comparisons that the transitions make.
abbrev pub is_open : Access → Bool
is_open closed = false
is_open open_envelope = true

abbrev pub is_unlocked : Screen → Bool
is_unlocked locked = false
is_unlocked unlocked = true

abbrev pub is_editing : EditMode → Bool
is_editing read_only = false
is_editing editing = true

abbrev pub is_held : Lease → Bool
is_held held = true
is_held _ = false

abbrev pub is_calm : Attention → Bool
is_calm no_attention = true
is_calm _ = false

abbrev pub is_reauthenticate : Attention → Bool
is_reauthenticate reauthenticate = true
is_reauthenticate _ = false

abbrev pub is_idle : PublicationPhase → Bool
is_idle idle = true
is_idle _ = false

abbrev pub is_publishing : PublicationPhase → Bool
is_publishing publishing = true
is_publishing _ = false

abbrev pub is_awaiting : PublicationPhase → Bool
is_awaiting awaiting_host_action = true
is_awaiting _ = false

abbrev pub is_outcome_pending : PublicationPhase → Bool
is_outcome_pending outcome_pending = true
is_outcome_pending _ = false

abbrev pub is_recovery : PublicationPhase → Bool
is_recovery recovery_required = true
is_recovery _ = false

abbrev pub is_save : PublicationKind → Bool
is_save save = true
is_save _ = false

abbrev pub is_lease_change : PublicationKind → Bool
is_lease_change lease_change = true
is_lease_change _ = false

abbrev pub is_compaction : PublicationKind → Bool
is_compaction compaction = true
is_compaction _ = false

abbrev pub is_backup : PublicationKind → Bool
is_backup backup_attempt = true
is_backup _ = false

abbrev pub is_attempt : PublicationKind → Bool
is_attempt backup_attempt = true
is_attempt export_attempt = true
is_attempt _ = false

abbrev pub is_activity_outcome : PublicationKind → Bool
is_activity_outcome activity_outcome = true
is_activity_outcome _ = false
