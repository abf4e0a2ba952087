-- ===== src/State/Reports.antt =====
-- Reports on a candidate that src/container/container_state.cpp has to take.
use scpefe.Base.{
  Bool, Outcome-cases, arith, err, false, fault, inl, inr, ok, some, true, ℕ, ◌≡◌, ◌⊎◌,
}
use scpefe.State.{apply}
use scpefe.State.Protocol.{Moves, Publication, at_host, pending, resting, shown, unclear, under_way}
use scpefe.State.Types.{
  ContainerState, PublicationKind, PublicationPhase, StateError, StateTransition, TransitionResult,
  ambiguous, awaiting_host_action, definite_failure, outcome_pending, publishing, recovery_required,
  verified,
}

-- A publication result, a report of the host and a resolution.
abbrev pub is_report : StateTransition → Bool
is_report (StateTransition.acknowledge_publication id outcome) = true
is_report (StateTransition.complete_host_action id succeeded) = true
is_report (StateTransition.resolve_ambiguity id published) = true
is_report _ = false

abbrev Shows : ContainerState → PublicationPhase → ℕ → PublicationKind → Type 0
Shows s phase id kind =
    (s.publication ≡ phase) × (s.operation_id ≡ some id) × (s.publication_kind ≡ some kind)

-- The candidate that is shown is the state's.
abbrev Holds : ContainerState → Publication → Type 0
Holds s resting = Unit
Holds s (under_way id kind) = Shows s publishing id kind
Holds s (unclear id kind) = Shows s recovery_required id kind
Holds s (at_host id kind) = Shows s awaiting_host_action id kind
Holds s (pending id kind) = Shows s outcome_pending id kind

shown-Holds : (s : ContainerState) → Holds s (shown s)
shown-Holds s = ground arith

-- The transition is accepted, and leads there.
abbrev pub Leads : ContainerState → StateTransition → Publication → Type 0
Leads s t q = (r : TransitionResult) × (apply s t ≡ ok r) × (shown r.state ≡ q)

led :
    (s : ContainerState) (t : StateTransition) {q : Publication}
    → ((r : TransitionResult) → apply s t ≡ ok r → shown r.state ≡ q)
    → ¬ (((e : StateError) × (apply s t ≡ err e)) ⊎ (apply s t ≡ fault))
    → Leads s t q
led s t leads refused = elim (Outcome-cases (apply s t)) [
  | inl (r, accepted) ↦ (r, accepted, leads r accepted)
  | inr other ↦ absurd (refused other)
]

Moves-Leads :
    (s : ContainerState) {p q : Publication} {t : StateTransition}
    → Moves p t q
    → Holds s p
    → is_report t ≡ true
    → Leads s t q
unfolding apply
Moves-Leads s (Moves.rest x) h e = absurd (ground arith)
Moves-Leads s (Moves.begin x) h e = absurd cc
Moves-Leads s (Moves.begin_outcome x) h e = absurd cc
Moves-Leads s (Moves.restore x) h e = absurd cc
Moves-Leads s Moves.close_unclear h e = absurd cc
Moves-Leads s Moves.close_pending h e = absurd cc
Moves-Leads s (Moves.adopt {id} x) h e =
    led s (StateTransition.acknowledge_publication id verified) (λ r accepted. ground arith)
      λ refused. ground arith
Moves-Leads s (Moves.hand_over {id} x) h e =
    led s (StateTransition.acknowledge_publication id verified) (λ r accepted. ground arith)
      λ refused. ground arith
Moves-Leads s (Moves.doubt {id}) h e =
    led s (StateTransition.acknowledge_publication id ambiguous) (λ r accepted. ground arith)
      λ refused. ground arith
Moves-Leads s (Moves.fail {id} x) h e =
    led s (StateTransition.acknowledge_publication id definite_failure) (λ r accepted. ground arith)
      λ refused. ground arith
Moves-Leads s (Moves.fail_outcome {id}) h e =
    led s (StateTransition.acknowledge_publication id definite_failure) (λ r accepted. ground arith)
      λ refused. ground arith
Moves-Leads s (Moves.find {id} x) h e =
    led s (StateTransition.resolve_ambiguity id true) (λ r accepted. ground arith)
      λ refused. ground arith
Moves-Leads s (Moves.find_attempt {id} x) h e =
    led s (StateTransition.resolve_ambiguity id true) (λ r accepted. ground arith)
      λ refused. ground arith
Moves-Leads s (Moves.miss {id} x) h e =
    led s (StateTransition.resolve_ambiguity id false) (λ r accepted. ground arith)
      λ refused. ground arith
Moves-Leads s (Moves.miss_outcome {id}) h e =
    led s (StateTransition.resolve_ambiguity id false) (λ r accepted. ground arith)
      λ refused. ground arith
Moves-Leads s (Moves.report {id} {kind} {succeeded}) h e =
    led s (StateTransition.complete_host_action id succeeded) (λ r accepted. ground arith)
      λ refused. ground arith

-- A report that the protocol has a move for is accepted in every state that shows the candidate, and
-- leads where the move leads: no result of the candidate that is around is lost.
pub report-Leads :
    (s : ContainerState) (t : StateTransition) {q : Publication}
    → is_report t ≡ true
    → Moves (shown s) t q
    → Leads s t q
report-Leads s t h m = Moves-Leads s m (shown-Holds s) h
