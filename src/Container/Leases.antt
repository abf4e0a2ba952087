-- ===== src/Container/Leases.antt =====
-- The lease decisions of src/container/container.cpp: `advise_lease_entry`, and the checks and the
-- new lease of `prepare_lease_change`, on the lease of the authenticated image.
use mathlib.Core.Bool.{xor}
use scpefe.Base.{
  Bool, Bytes, Option, Outcome, [], bytes_eq, err, false, if◌then◌else◌, is_empty, leb, ltb, none,
  not, ok, require_or, some, true, ℕ, ◌&&◌, ◌+◌, ◌-◌, ◌==◌, ◌>>◌, ◌^◌, ◌||◌, ◌∷◌,
}
use scpefe.Container.Session.{
  Container, ContainerError, EditingLeaseData, Thrown, UnlockedContainerData, bit_edit,
  container_failure, invalid_argument, limit_exceeded, state_error,
}
use scpefe.State.Types.{
  ContainerState, SlotId, StateError, invalid_transition, is_calm, is_editing, is_idle, is_open,
  is_unlocked, stale_operation,
}

pub data LeaseEntry : Type 0 where
  acquire resume takeover confirm_takeover blocked changed : LeaseEntry

pub data LeaseAction : Type 0 where
  acquire refresh release resume takeover : LeaseAction

pub record LeaseChange : Type 0 where
  pub action : LeaseAction
  pub session_id : SlotId
  pub expected_active : Bool
  pub expected_session_id : SlotId
  pub expected_counter : ℕ
  pub expected_holder_utc_ms : ℕ
  pub expected_duration_ms : ℕ
  pub now_utc_ms : ℕ
  pub unchanged_monotonic_ms : ℕ
  pub duration_ms : ℕ
  pub holder_name : Bytes
  pub holder_email : Bytes
  pub device_name : Bytes
  pub explicit_takeover : Bool

abbrev pub is_session : Option SlotId → SlotId → Bool
is_session none id = false
is_session (some mine) id = bytes_eq mine id

-- The holder's clock reading is not ahead of ours, and the duration has passed since.
abbrev pub expired : EditingLeaseData → ℕ → Bool
expired lease now = leb lease.holder_utc_ms now && leb lease.duration_ms (now - lease.holder_utc_ms)

-- The choice for an active lease; `privileged` is an owner or recovery slot.
unfoldable pub entry_for : EditingLeaseData → Bool → Bool → ℕ → ℕ → ℕ → LeaseEntry
entry_for lease local privileged suspended_counter now unchanged =
    let clock_advanced = leb lease.holder_utc_ms now in
    let age = if clock_advanced then now - lease.holder_utc_ms else 0 in
    if local && not (lease.heartbeat_counter == suspended_counter)
    then LeaseEntry.changed
    else if local && clock_advanced && ltb age lease.duration_ms
    then LeaseEntry.resume
    else if (clock_advanced && leb lease.duration_ms age) || leb lease.duration_ms unchanged
    then LeaseEntry.takeover
    else if not clock_advanced || privileged
    then LeaseEntry.confirm_takeover
    else LeaseEntry.blocked

abbrev may_enter : ContainerState → Bool
may_enter s =
    is_open s.access
    && is_unlocked s.screen
    && is_idle s.publication
    && is_calm s.attention
    && s.permissions.can_edit
    && not (is_editing s.edit)

unfoldable pub advise_lease_entry : Container → SlotId → ℕ → ℕ → ℕ → Outcome StateError LeaseEntry
unfolding entry_for
advise_lease_entry c suspended_session suspended_counter now unchanged = elim c.unlocked [
  | none ↦ err invalid_transition
  | some u ↦
      if not (may_enter c.state) || u.must_be_changed
      then err invalid_transition
      else ok (
          if not u.editing_lease.active
          then LeaseEntry.acquire
          else entry_for u.editing_lease
              (is_session c.local_lease_session suspended_session
                && bytes_eq u.editing_lease.session_id suspended_session)
              (u.owner_slot || u.recovery_slot) suspended_counter now unchanged)
]

abbrev pub as_expected : EditingLeaseData → LeaseChange → Bool
as_expected prior change =
    not (xor prior.active change.expected_active)
    && bytes_eq prior.session_id change.expected_session_id
    && prior.heartbeat_counter == change.expected_counter
    && prior.holder_utc_ms == change.expected_holder_utc_ms
    && prior.duration_ms == change.expected_duration_ms

abbrev is_release : LeaseAction → Bool
is_release LeaseAction.release = true
is_release _ = false

abbrev pub int64_max : ℕ
int64_max = 2 ^ 63 - 1

abbrev uint64_max : ℕ
uint64_max = 2 ^ 64 - 1

-- The requirement of each action: `same` if this session holds the prior lease, `local` if the
-- change is for this session.
unfoldable pub allowed : UnlockedContainerData → LeaseChange → Bool → Bool → Bool → Bool
allowed image change same local is_edit = elim change.action [
  | LeaseAction.acquire ↦ not image.editing_lease.active
  | LeaseAction.refresh ↦ same && local && is_edit
  | LeaseAction.resume ↦ same && local && not is_edit
  | LeaseAction.release ↦ same && local
  | LeaseAction.takeover ↦
      image.editing_lease.active
      && not same
      && change.explicit_takeover
      && (expired image.editing_lease change.now_utc_ms
          || leb image.editing_lease.duration_ms change.unchanged_monotonic_ms
          || image.owner_slot
          || image.recovery_slot)
]

abbrev reject {ℓ} : {A : Type ℓ} → ContainerError → Outcome Thrown A
reject e = err (container_failure e)

abbrev pub unless : Bool → Thrown → Outcome Thrown (Unit {0})
unless b e = require_or e b

abbrev pub zero_id : SlotId
zero_id = 0 ∷ 0 ∷ 0 ∷ 0 ∷ 0 ∷ 0 ∷ 0 ∷ 0 ∷ 0 ∷ 0 ∷ 0 ∷ 0 ∷ 0 ∷ 0 ∷ 0 ∷ 0 ∷ []

-- The state in which a lease change may be prepared, with the rights of the unlocked slot.
abbrev may_prepare : Container → UnlockedContainerData → LeaseChange → Bool
may_prepare c u change =
    is_open c.state.access
    && (is_unlocked c.state.screen || is_release change.action)
    && is_idle c.state.publication
    && is_calm c.state.attention
    && (not (is_unlocked c.state.screen) || c.state.permissions.can_edit)
    && bit_edit u.permissions
    && not u.must_be_changed

-- The lease that the candidate carries, from the authenticated image; the checks stand in the
-- order of the source.
unfoldable pub next_lease :
    Container → UnlockedContainerData → LeaseChange → Outcome Thrown EditingLeaseData
unfolding allowed
next_lease c image change = do
  let prior = image.editing_lease
  let same = prior.active && bytes_eq prior.session_id change.session_id
  let local = is_session c.local_lease_session change.session_id
  let held_after = not (is_release change.action)
  unless (as_expected prior change) (state_error stale_operation)
  unless (allowed image change same local (is_editing c.state.edit))
      (state_error invalid_transition)
  unless
      (leb change.now_utc_ms int64_max
        && (not held_after
            || (not (is_empty change.holder_name)
                && not (is_empty change.holder_email)
                && not (is_empty change.device_name))))
      (container_failure invalid_argument)
  unless (not (prior.heartbeat_counter == uint64_max)) (container_failure limit_exceeded)
  ok (record {
    session_id = if held_after then change.session_id else zero_id;
    heartbeat_counter = if same then prior.heartbeat_counter + 1 else 1;
    holder_utc_ms = change.now_utc_ms;
    duration_ms = change.duration_ms;
    holder_name = if held_after then change.holder_name else [];
    holder_email = if held_after then change.holder_email else [];
    device_name = if held_after then change.device_name else [];
    active = held_after;
  })

abbrev pub not_none {ℓ} : {A : Type ℓ} → Option A → Bool
not_none none = false
not_none (some a) = true

-- The checks that precede the authentication of the image.
unfoldable pub may_change_lease : Container → ℕ → LeaseChange → Bytes → Outcome Thrown (Unit {0})
may_change_lease c operation_id change password = elim c.unlocked [
  | none ↦ err (state_error invalid_transition)
  | some u ↦ do
    unless
        (not c.transitioning
          && not (not_none c.candidate)
          && may_prepare c u change
          && not (not_none c.state.target_access))
        (state_error invalid_transition)
    unless (ltb c.state.last_operation_id operation_id) (state_error stale_operation)
    unless
        (not (is_empty password)
          && not (bytes_eq change.session_id zero_id)
          && not (change.duration_ms == 0)
          && leb change.duration_ms int64_max)
        (container_failure invalid_argument)
]
