-- ===== src/State/Steps.antt =====
-- What the transitions of src/container/container_state.cpp share: requirements and effects.
use scpefe.Base.{
  Bool, List, Option, Outcome, [], err, false, if◌then◌else◌, none, not, ok, require_or, some, ℕ,
  ◌&&◌, ◌==◌, ◌||◌,
}
use scpefe.State.Types.{
  ContainerState, EffectKind, Permissions, PublicationKind, RequiredEffect, StateError,
  TransitionResult, invalid_transition, is_activity_outcome, stale_operation,
}

abbrev pub Transition : Type 0
Transition = Outcome StateError TransitionResult

abbrev pub require : Bool → Outcome StateError (Unit {0})
require = require_or invalid_transition

abbrev pub require_operation : ContainerState → ℕ → Outcome StateError (Unit {0})
require_operation s id = elim s.operation_id [
  | none ↦ err stale_operation
  | some current ↦ require_or stale_operation (current == id)
]

abbrev pub effect : EffectKind → ℕ → RequiredEffect
effect k id = record { kind = k; operation_id = id }

-- `{EffectKind::…}`: no operation.
abbrev pub plain : EffectKind → RequiredEffect
plain k = effect k 0

abbrev pub when : Bool → List RequiredEffect → List RequiredEffect
when b es = if b then es else []

abbrev pub proposes : ContainerState → List RequiredEffect → Transition
proposes s es = ok (record { state = s; effects = es })

-- The rights to manage passwords include the right to edit.
abbrev pub coherent : Permissions → Bool
coherent p = (not p.can_add_passwords || p.can_edit) && (not p.can_remove_passwords || p.can_edit)

abbrev pub is_outcome_publication : Option PublicationKind → Bool
is_outcome_publication none = false
is_outcome_publication (some k) = is_activity_outcome k
