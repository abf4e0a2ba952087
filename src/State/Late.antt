-- ===== src/State/Late.antt =====
-- Results that reach src/container/container_state.cpp late.
use scpefe.Base.{Bool, List, arith, err, ok, some, ℕ, ◌≡◌, ◌≢◌, ◌≤◌}
use scpefe.State.{apply}
use scpefe.State.Invariant.{IsWellFormed}
use scpefe.State.Runs.{run, run_keeps}
use scpefe.State.Types.{
  ContainerState, PublicationOutcome, StateTransition, TransitionResult, stale_operation,
}

-- Every report on the operation is refused as stale.
abbrev pub IsStale : ContainerState → ℕ → Type 0
IsStale s id =
    (outcome : PublicationOutcome) (done : Bool)
    → (apply s (StateTransition.acknowledge_publication id outcome) ≡ err stale_operation)
      × (apply s (StateTransition.complete_host_action id done) ≡ err stale_operation)
      × (apply s (StateTransition.resolve_ambiguity id done) ≡ err stale_operation)

-- The operation was begun, and is over.
abbrev IsPast : ℕ → ContainerState → Type 0
IsPast id s = (id ≤ s.last_operation_id) × (s.operation_id ≢ some id)

IsPast-IsStale : (s : ContainerState) (id : ℕ) → IsPast id s → IsStale s id
unfolding apply
IsPast-IsStale s id h outcome done = ground arith

-- No transition brings an operation back.
apply-IsPast :
    (id : ℕ) (s : ContainerState) (t : StateTransition) (r : TransitionResult)
    → apply s t ≡ ok r
    → IsPast id s
    → IsPast id r.state
unfolding apply
apply-IsPast id s StateTransition.open_document r e h = ground arith
apply-IsPast id s _ r e h = ground arith

left-IsPast :
    (s : ContainerState) (t : StateTransition) (id : ℕ) {r : TransitionResult}
    → IsWellFormed s
    → s.operation_id ≡ some id
    → apply s t ≡ ok r
    → r.state.operation_id ≢ some id
    → IsPast id r.state
unfolding apply
left-IsPast s StateTransition.open_document id v h e n = ground arith
left-IsPast s _ id v h e n = ground arith

-- Once a transition has ended an operation, every report on that operation is refused as stale,
-- whatever history follows: also after newer operations, after `Close` and after another opening.
pub ended_stays-IsStale :
    (s : ContainerState) (t : StateTransition) (id : ℕ) (ts : List StateTransition)
    {r : TransitionResult}
    → IsWellFormed s
    → s.operation_id ≡ some id
    → apply s t ≡ ok r
    → r.state.operation_id ≢ some id
    → IsStale (run r.state ts).0 id
ended_stays-IsStale s t id ts {r} v h e n =
    IsPast-IsStale (run r.state ts).0 id
      (run_keeps (IsPast id) (apply-IsPast id) r.state ts (left-IsPast s t id v h e n))
