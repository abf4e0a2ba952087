-- ===== src/State/Journal.antt =====
-- The host's journal of the candidate, driven by the effects of src/container/container_state.cpp.
use scpefe.Base.{
  Bool, List, Option, [], arith, false, if◌then◌else◌, none, ok, some, true, ℕ, ◌==◌, ◌∷◌, ◌≡◌,
}
use scpefe.State.{apply}
use scpefe.State.Steps.{is_outcome_publication}
use scpefe.State.Types.{
  ContainerState, PublicationPhase, RequiredEffect, StateTransition, TransitionResult,
  adopt_candidate, ambiguous, clear_journal, definite_failure, journal_candidate, publish_candidate,
  publishing, recover_candidate, recovery_required, verified,
}

-- What the host does with its journal for an effect; `none` if the effect makes no sense to it.
abbrev pub only : Option ℕ → ℕ → Option ℕ → Option (Option ℕ)
only none id after = none
only (some j) id after = if j == id then some after else none

abbrev pub journal_step : Option ℕ → RequiredEffect → Option (Option ℕ)
journal_step j e = elim e.kind [
  | journal_candidate ↦ some (some e.operation_id)
  | publish_candidate ↦ only j e.operation_id j
  | adopt_candidate ↦ only j e.operation_id j
  | clear_journal ↦ only j e.operation_id none
  | recover_candidate ↦ only j e.operation_id j
  | _ ↦ some j
]

abbrev pub journal : Option ℕ → List RequiredEffect → Option (Option ℕ)
journal j [] = some j
journal j (e ∷ es) = elim (journal_step j e) [ none ↦ none | some k ↦ journal k es ]

abbrev pub in_flight : PublicationPhase → Bool
in_flight publishing = true
in_flight recovery_required = true
in_flight _ = false

-- While a candidate is in flight, the journal holds it.
abbrev pub Journaled : ContainerState → Option ℕ → Type 0
Journaled s j = in_flight s.publication ≡ true → j ≡ s.operation_id

-- An outcome that was not published stays journaled, any other candidate does not.
abbrev after_failure : ContainerState → Option ℕ → Option ℕ
after_failure s j = if is_outcome_publication s.publication_kind then j else none

-- Each effect of an accepted transition names the journaled candidate: the host publishes, adopts,
-- recovers and clears no other, and afterwards the journal again holds the one in flight.
pub apply-journal :
    (s : ContainerState) (t : StateTransition) (j : Option ℕ) {r : TransitionResult}
    → Journaled s j
    → apply s t ≡ ok r
    → (k : Option ℕ) × (journal j r.effects ≡ some k) × Journaled r.state k
unfolding apply
apply-journal s (StateTransition.begin_publication id kind) j h e =
    (some id, ground arith, ground arith)
apply-journal s (StateTransition.acknowledge_publication id verified) j h e =
    (none, ground arith, ground arith)
apply-journal s (StateTransition.acknowledge_publication id ambiguous) j h e =
    (j, ground arith, ground arith)
apply-journal s (StateTransition.acknowledge_publication id definite_failure) j h e =
    (after_failure s j, ground arith, ground arith)
apply-journal s (StateTransition.resolve_ambiguity id true) j h e =
    (none, ground arith, ground arith)
apply-journal s (StateTransition.resolve_ambiguity id false) j h e =
    (after_failure s j, ground arith, ground arith)
apply-journal s t j h e = (j, ground arith, ground arith)
