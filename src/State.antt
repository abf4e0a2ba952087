-- ===== src/State.antt =====
-- src/container/container_state.cpp: `ContainerStateManagerService::apply`, which proposes a state
-- and effects and does no I/O. Each branch of it is a function of a child.
pub mod Types
pub mod Steps
pub mod Session
pub mod Publication
pub mod Invariant
pub mod Effects
pub mod Protocol
pub mod Reports
pub mod Journal
pub mod Runs
pub mod Writers
pub mod Late
pub mod Freshness
pub mod Host
use scpefe.State.Publication.{
  apply_acknowledge, apply_begin, apply_complete, apply_resolve, apply_restore,
}
use scpefe.State.Session.{
  apply_acquire, apply_clear, apply_close, apply_lock, apply_open, apply_published_lease,
  apply_raise, apply_release, apply_slot_permissions, apply_target, apply_unlock,
}
use scpefe.State.Steps.{Transition}
use scpefe.State.Types.{ContainerState, StateTransition}

unfoldable pub apply : ContainerState → StateTransition → Transition
unfolding apply_open apply_unlock apply_lock apply_slot_permissions apply_close apply_acquire
    apply_release apply_published_lease apply_target apply_raise apply_clear apply_begin
    apply_acknowledge apply_complete apply_restore apply_resolve
apply s StateTransition.open_document = apply_open s
apply s (StateTransition.unlock u) = apply_unlock s u
apply s StateTransition.lock = apply_lock s
apply s (StateTransition.authenticated_slot_permissions p may) = apply_slot_permissions s p may
apply s StateTransition.close = apply_close s
apply s (StateTransition.acquire_edit l) = apply_acquire s l
apply s StateTransition.release_edit = apply_release s
apply s (StateTransition.published_lease h) = apply_published_lease s h
apply s (StateTransition.apply_target_permissions p changed) = apply_target s p changed
apply s (StateTransition.raise_attention a) = apply_raise s a
apply s StateTransition.clear_attention = apply_clear s
apply s (StateTransition.begin_publication id kind) = apply_begin s id kind
apply s (StateTransition.acknowledge_publication id o) = apply_acknowledge s id o
apply s (StateTransition.complete_host_action id done) = apply_complete s id done
apply s (StateTransition.restore_pending_activity id kind) = apply_restore s id kind
apply s (StateTransition.resolve_ambiguity id published) = apply_resolve s id published
