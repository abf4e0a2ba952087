-- ===== src/Container/Session.antt =====
-- The data of src/container/container.hpp, container_error.hpp and unlocked_container_data.hpp that
-- the modelled operations use.
use scpefe.Base.{Bool, Bytes, Option, arith, if◌then◌else◌, ℕ, ◌%◌, ◌+◌, ◌/◌, ◌==◌, ◌≡◌}
use scpefe.State.Types.{ContainerState, Permissions, SlotId, StateError}

pub data ContainerError : Type 0 where
  invalid_argument malformed_container unsupported_format limit_exceeded : ContainerError
  authentication_failed weak_password password_already_in_use : ContainerError
  out_of_memory crypto_error : ContainerError

-- A container operation throws a `StateError` or a `ContainerFailure`.
pub data Thrown : Type 0 where
  state_error : StateError → Thrown
  container_failure : ContainerError → Thrown

pub record EditingLeaseData : Type 0 where
  pub session_id : SlotId
  pub heartbeat_counter : ℕ
  pub holder_utc_ms : ℕ
  pub duration_ms : ℕ
  pub holder_name : Bytes
  pub holder_email : Bytes
  pub device_name : Bytes
  pub active : Bool

-- The decrypted image; of its revision graph only the head.
pub record UnlockedContainerData : Type 0 where
  pub document_id : Bytes
  pub slot_id : SlotId
  pub permissions : ℕ
  pub recovery_slot : Bool
  pub owner_slot : Bool
  pub must_be_changed : Bool
  pub content_type : ℕ
  pub editing_lease : EditingLeaseData
  pub graph_head : Bytes

pub record ContainerCandidate : Type 0 where
  pub operation_id : ℕ
  pub bytes : Bytes
  pub adopted_data : UnlockedContainerData
  pub submitted_generation : ℕ
  pub discard : Bool
  pub removes_active_slot : Bool
  pub slot_change : Bool
  pub lease_change : Bool
  pub lease_held_after : Bool
  pub activity_backup : Option Bool
  pub lease_session_after : SlotId
  pub discarded_content : Bytes

pub record PendingActivity : Type 0 where
  pub attempt_operation_id : ℕ
  pub attempt_head : Bytes
  pub backup : Bool
  pub succeeded : Option Bool

pub record Container : Type 0 where
  pub committed_bytes : Bytes
  pub target_bytes : Bytes
  pub document_id : Option Bytes
  pub unlocked : Option UnlockedContainerData
  pub content_clear : Option Bytes
  pub content_generation : ℕ
  pub candidate : Option ContainerCandidate
  pub pending_activity : Option PendingActivity
  pub state : ContainerState
  pub transitioning : Bool
  pub local_lease_session : Option SlotId

-- The bits 1, 2 and 4 of a permission byte.
abbrev pub bit_edit : ℕ → Bool
bit_edit p = p % 2 == 1

abbrev pub bit_add : ℕ → Bool
bit_add p = p / 2 % 2 == 1

abbrev pub bit_remove : ℕ → Bool
bit_remove p = p / 4 % 2 == 1

abbrev pub rights_of : ℕ → Permissions
rights_of p = record {
  can_edit = bit_edit p;
  can_add_passwords = bit_add p;
  can_remove_passwords = bit_remove p;
}

pub permission_bits : Permissions → ℕ
permission_bits p =
    (if p.can_edit then 1 else 0)
    + (if p.can_add_passwords then 2 else 0)
    + (if p.can_remove_passwords then 4 else 0)

pub rights_of-permission_bits : (p : Permissions) → rights_of (permission_bits p) ≡ p
unfolding permission_bits
rights_of-permission_bits p = ground arith
