-- ===== src/State/Publication.antt =====
-- The transitions of src/container/container_state.cpp on candidate publications.
use scpefe.Base.{
  Bool, Option, [], fault, if◌then◌else◌, ltb, none, not, some, true, ℕ, ◌&&◌, ◌++◌, ◌==◌, ◌>>◌,
  ◌||◌, ◌∷◌,
}
use scpefe.State.Steps.{
  Transition, effect, is_outcome_publication, proposes, require, require_operation,
}
use scpefe.State.Types.{
  ContainerState, PublicationKind, PublicationOutcome, adopt_candidate, ambiguous,
  awaiting_host_action, clear_journal, definite_failure, idle, is_activity_outcome, is_attempt,
  is_awaiting, is_backup, is_calm, is_compaction, is_editing, is_held, is_idle, is_lease_change,
  is_open, is_outcome_pending, is_publishing, is_recovery, is_save, is_unlocked,
  journal_activity_outcome, journal_candidate, outcome_pending, perform_backup, perform_export,
  publish_candidate, publishing, record_failure_outcome, record_success_outcome, recover_candidate,
  recovery_required, reread_target, verified,
}

abbrev pub clear_publication : ContainerState → ContainerState
clear_publication s = record s { publication = idle; operation_id = none; publication_kind = none }

-- The dereference of an empty kind is undefined.
unfoldable pub verified_with : Option PublicationKind → ContainerState → ℕ → Transition
verified_with none s id = fault
verified_with (some kind) s id =
    let adopted = effect adopt_candidate id ∷ effect clear_journal id ∷ [] in
    if is_attempt kind
    then proposes (record s { publication = awaiting_host_action })
        (adopted ++ (effect (if is_backup kind then perform_backup else perform_export) id ∷ []))
    else proposes (clear_publication s) adopted

unfoldable pub verified_publication : ContainerState → ℕ → Transition
unfolding verified_with
verified_publication s id = verified_with s.publication_kind s id

-- A candidate that is known not to be published.
unfoldable pub unpublished : ContainerState → ℕ → Transition
unpublished s id =
    if is_outcome_publication s.publication_kind
    then proposes (record s { publication = outcome_pending })
        (effect journal_activity_outcome id ∷ [])
    else proposes (clear_publication s) (effect clear_journal id ∷ [])

abbrev pub differs : Option ℕ → ℕ → Bool
differs none id = true
differs (some n) id = not (n == id)

-- What the kind of a candidate requires of the state.
unfoldable pub may_publish : ContainerState → ℕ → PublicationKind → Bool
may_publish s id kind =
    if is_activity_outcome kind
    then is_outcome_pending s.publication && differs s.operation_id id
    else is_idle s.publication
      && (not (is_save kind || is_compaction kind)
          || (is_editing s.edit && s.permissions.can_edit && is_held s.lease))
      && (not (is_compaction kind)
          || (s.permissions.can_add_passwords && s.permissions.can_remove_passwords))
      && (not (is_lease_change kind) || (not (is_unlocked s.screen) || s.permissions.can_edit))

unfoldable pub apply_begin : ContainerState → ℕ → PublicationKind → Transition
unfolding may_publish
apply_begin s id kind = do
  require (
      is_open s.access
      && (is_unlocked s.screen || is_lease_change kind)
      && is_calm s.attention
      && ltb s.last_operation_id id)
  require (may_publish s id kind)
  proposes
      (record s {
        publication = publishing;
        operation_id = some id;
        last_operation_id = id;
        publication_kind = some kind;
      })
      (effect reread_target id ∷ effect journal_candidate id ∷ effect publish_candidate id ∷ [])

unfoldable pub apply_acknowledge : ContainerState → ℕ → PublicationOutcome → Transition
unfolding verified_publication unpublished
apply_acknowledge s id outcome = do
  require_operation s id
  require (is_publishing s.publication)
  elim outcome [
    | verified ↦ verified_publication s id
    | ambiguous ↦
        proposes (record s { publication = recovery_required }) (effect recover_candidate id ∷ [])
    | definite_failure ↦ unpublished s id
  ]

unfoldable pub apply_complete : ContainerState → ℕ → Bool → Transition
apply_complete s id succeeded = do
  require_operation s id
  require (is_awaiting s.publication)
  proposes (record s { publication = outcome_pending })
      (effect (if succeeded then record_success_outcome else record_failure_outcome) id
        ∷ effect journal_activity_outcome id
        ∷ [])

unfoldable pub apply_restore : ContainerState → ℕ → PublicationKind → Transition
apply_restore s id kind = do
  require (
      is_open s.access
      && is_unlocked s.screen
      && is_idle s.publication
      && is_calm s.attention
      && ltb s.last_operation_id id
      && is_attempt kind)
  proposes
      (record s {
        publication = outcome_pending;
        operation_id = some id;
        last_operation_id = id;
        publication_kind = some kind;
      })
      []

unfoldable pub apply_resolve : ContainerState → ℕ → Bool → Transition
unfolding verified_publication unpublished
apply_resolve s id published = do
  require_operation s id
  require (is_recovery s.publication)
  if published then verified_publication s id else unpublished s id
