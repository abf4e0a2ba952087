-- ===== src/State/Session.antt =====
-- The transitions of src/container/container_state.cpp on access, lease, rights and attention.
use scpefe.Base.{
  Bool, List, Option, [], bytes_eq, err, if◌then◌else◌, none, not, some, true, ℕ, ◌&&◌, ◌++◌, ◌>>◌,
  ◌||◌, ◌∷◌,
}
use scpefe.State.Steps.{
  Transition, coherent, effect, is_outcome_publication, plain, proposes, require, when,
}
use scpefe.State.Types.{
  Attention, ContainerState, Lease, Permissions, TargetAccess, Unlock, attempt_edit_lease,
  clear_display, editing, held, initial_state, invalid_transition, is_awaiting, is_calm, is_editing,
  is_held, is_idle, is_open, is_outcome_pending, is_publishing, is_reauthenticate, is_unlocked,
  journal_activity_outcome, locked, no_attention, no_lease, no_permissions, open_envelope,
  preserve_unsaved_work, read_only, reauthenticate, release_lease, start_heartbeat, stop_heartbeat,
  unlocked,
}

unfoldable pub apply_open : ContainerState → Transition
apply_open s = do
  require (not (is_open s.access))
  proposes (record s { access = open_envelope }) []

abbrev pub admits : Option TargetAccess → Unlock → Bool
admits none u = true
admits (some t) u =
    (not t.wrapper_changed || u.authenticated_target_wrapper) && bytes_eq t.slot_id u.slot_id

abbrev pub effective : Option TargetAccess → Unlock → Permissions
effective none u = u.permissions
effective (some t) u = t.permissions

unfoldable pub apply_unlock : ContainerState → Unlock → Transition
apply_unlock s u = do
  require (is_open s.access && not (is_unlocked s.screen) && is_idle s.publication)
  require (coherent u.permissions)
  require (admits s.target_access u)
  let rights = effective s.target_access u
  proposes
      (record s {
        screen = unlocked;
        active_slot = some u.slot_id;
        permissions = rights;
        lease = u.authenticated_lease;
        attention = if is_reauthenticate s.attention then no_attention else s.attention;
      })
      (when (u.may_attempt_edit && rights.can_edit) (plain attempt_edit_lease ∷ []))

unfoldable pub apply_lock : ContainerState → Transition
apply_lock s = do
  require (is_open s.access && is_unlocked s.screen && is_idle s.publication)
  proposes
      (record s {
        screen = locked;
        edit = read_only;
        active_slot = none;
        permissions = no_permissions;
      })
      (when (is_editing s.edit) (plain stop_heartbeat ∷ []) ++ (plain clear_display ∷ []))

unfoldable pub apply_slot_permissions : ContainerState → Permissions → Bool → Transition
apply_slot_permissions s rights may_attempt_edit = do
  require (is_open s.access && is_unlocked s.screen && is_idle s.publication)
  require (coherent rights)
  if (not rights.can_edit || not may_attempt_edit) && is_editing s.edit
      then proposes (record s { permissions = rights; edit = read_only })
          (plain stop_heartbeat ∷ plain preserve_unsaved_work ∷ [])
      else proposes (record s { permissions = rights }) []

abbrev pub value_or : Option ℕ → ℕ → ℕ
value_or none d = d
value_or (some n) d = n

unfoldable pub apply_close : ContainerState → Transition
apply_close s = do
  require (is_open s.access && not (is_publishing s.publication) && not (is_awaiting s.publication))
  proposes (record initial_state { last_operation_id = s.last_operation_id })
      (when (not (is_idle s.publication)) (
          effect
            (if is_outcome_publication s.publication_kind || is_outcome_pending s.publication
              then journal_activity_outcome
              else preserve_unsaved_work)
            (value_or s.operation_id 0)
          ∷ [])
        ++ (when (is_editing s.edit) (plain stop_heartbeat ∷ [])
            ++ (when (is_held s.lease) (plain release_lease ∷ [])
                ++ when (is_unlocked s.screen) (plain clear_display ∷ []))))

unfoldable pub apply_acquire : ContainerState → Lease → Transition
apply_acquire s lease = do
  require (
      is_open s.access
      && is_unlocked s.screen
      && s.permissions.can_edit
      && is_calm s.attention
      && is_idle s.publication
      && is_held lease)
  proposes (record s { lease = held; edit = editing })
      (when (not (is_editing s.edit)) (plain start_heartbeat ∷ []))

unfoldable pub apply_release : ContainerState → Transition
apply_release s = do
  require (is_open s.access && is_editing s.edit && is_idle s.publication)
  proposes (record s { edit = read_only; lease = no_lease })
      (plain stop_heartbeat ∷ plain release_lease ∷ [])

unfoldable pub apply_published_lease : ContainerState → Bool → Transition
apply_published_lease s lease_held = do
  require (is_open s.access && is_idle s.publication && (is_unlocked s.screen || not lease_held))
  let editor = lease_held && is_unlocked s.screen && s.permissions.can_edit
  proposes
      (record s {
        lease = if lease_held then held else no_lease;
        edit = if editor then editing else read_only;
      })
      (if is_editing s.edit
        then when (not editor) (plain stop_heartbeat ∷ [])
        else when editor (plain start_heartbeat ∷ []))

-- The state with the target's rights installed, before edit mode is revised.
unfoldable pub with_target : ContainerState → List ℕ → Permissions → Bool → ContainerState
with_target s slot rights changed =
    let target : TargetAccess = record {
      slot_id = slot;
      permissions = rights;
      wrapper_changed = changed;
    } in
    if changed
    then record s {
      target_access = some target;
      permissions = no_permissions;
      attention = reauthenticate;
      screen = locked;
      active_slot = none;
    }
    else record s { target_access = some target; permissions = rights }

unfoldable pub apply_target : ContainerState → Permissions → Bool → Transition
unfolding with_target
apply_target s rights changed = do
  require (is_open s.access && is_unlocked s.screen && is_idle s.publication)
  require (coherent rights)
  elim s.active_slot [
    | none ↦ err invalid_transition
    | some slot ↦
        let next = with_target s slot rights changed in
        let cleared = when changed (plain clear_display ∷ []) in
        if not next.permissions.can_edit && is_editing s.edit
        then proposes (record next { edit = read_only })
            (cleared ++ (plain stop_heartbeat ∷ plain preserve_unsaved_work ∷ []))
        else proposes next cleared
  ]

unfoldable pub apply_raise : ContainerState → Attention → Transition
apply_raise s reason = do
  require (
      is_open s.access
      && not (is_calm reason)
      && not (is_reauthenticate reason)
      && is_idle s.publication)
  proposes (record s { attention = reason }) []

unfoldable pub apply_clear : ContainerState → Transition
apply_clear s = do
  require (
      is_open s.access
      && not (is_calm s.attention)
      && not (is_reauthenticate s.attention)
      && is_idle s.publication)
  proposes (record s { attention = no_attention }) []
