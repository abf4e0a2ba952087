-- ===== src/State/Protocol.antt =====
-- The publication protocol that the transitions of src/container/container_state.cpp follow, written
-- without the session around it.
use scpefe.Base.{
  Bool, Option, Option-cases, arith, false, inl, inr, ok, some, true, ℕ, ◌<◌, ◌≡◌, ◌⊎◌,
}
use scpefe.State.{apply}
use scpefe.State.Invariant.{IsWellFormed}
use scpefe.State.Types.{
  ContainerState, PublicationKind, PublicationPhase, StateTransition, TransitionResult,
  activity_outcome, ambiguous, awaiting_host_action, definite_failure, idle, is_activity_outcome,
  is_attempt, outcome_pending, publishing, recovery_required, verified,
}

-- A candidate is under way, its outcome unclear, its host action running or its outcome pending.
pub data Publication : Type 0 where
  resting : Publication
  under_way unclear at_host pending : ℕ → PublicationKind → Publication

abbrev pub shows : PublicationPhase → Option ℕ → Option PublicationKind → Publication
shows publishing (some id) (some kind) = under_way id kind
shows recovery_required (some id) (some kind) = unclear id kind
shows awaiting_host_action (some id) (some kind) = at_host id kind
shows outcome_pending (some id) (some kind) = pending id kind
shows _ _ _ = resting

abbrev pub shown : ContainerState → Publication
shown s = shows s.publication s.operation_id s.publication_kind

-- A transition that is not about a candidate.
abbrev pub about_session : StateTransition → Bool
about_session (StateTransition.begin_publication id kind) = false
about_session (StateTransition.acknowledge_publication id outcome) = false
about_session (StateTransition.complete_host_action id succeeded) = false
about_session (StateTransition.restore_pending_activity id kind) = false
about_session (StateTransition.resolve_ambiguity id published) = false
about_session _ = true

-- The session moves only while no candidate is around. Each result names the candidate, and what
-- comes of it is the result's.
pub data Moves : Publication → StateTransition → Publication → Type 0 where
  rest : {t : StateTransition} → about_session t ≡ true → Moves resting t resting
  begin :
      {id : ℕ} {kind : PublicationKind}
      → is_activity_outcome kind ≡ false
      → Moves resting (StateTransition.begin_publication id kind) (under_way id kind)
  begin_outcome :
      {id old : ℕ} {kind : PublicationKind}
      → old < id
      → Moves
          (pending old kind)
          (StateTransition.begin_publication id activity_outcome)
          (under_way id activity_outcome)
  restore :
      {id : ℕ} {kind : PublicationKind}
      → is_attempt kind ≡ true
      → Moves resting (StateTransition.restore_pending_activity id kind) (pending id kind)
  adopt :
      {id : ℕ} {kind : PublicationKind}
      → is_attempt kind ≡ false
      → Moves (under_way id kind) (StateTransition.acknowledge_publication id verified) resting
  hand_over :
      {id : ℕ} {kind : PublicationKind}
      → is_attempt kind ≡ true
      → Moves
          (under_way id kind)
          (StateTransition.acknowledge_publication id verified)
          (at_host id kind)
  doubt :
      {id : ℕ} {kind : PublicationKind}
      → Moves
          (under_way id kind)
          (StateTransition.acknowledge_publication id ambiguous)
          (unclear id kind)
  fail :
      {id : ℕ} {kind : PublicationKind}
      → is_activity_outcome kind ≡ false
      → Moves
          (under_way id kind)
          (StateTransition.acknowledge_publication id definite_failure)
          resting
  fail_outcome :
      {id : ℕ}
      → Moves
          (under_way id activity_outcome)
          (StateTransition.acknowledge_publication id definite_failure)
          (pending id activity_outcome)
  find :
      {id : ℕ} {kind : PublicationKind}
      → is_attempt kind ≡ false
      → Moves (unclear id kind) (StateTransition.resolve_ambiguity id true) resting
  find_attempt :
      {id : ℕ} {kind : PublicationKind}
      → is_attempt kind ≡ true
      → Moves (unclear id kind) (StateTransition.resolve_ambiguity id true) (at_host id kind)
  miss :
      {id : ℕ} {kind : PublicationKind}
      → is_activity_outcome kind ≡ false
      → Moves (unclear id kind) (StateTransition.resolve_ambiguity id false) resting
  miss_outcome :
      {id : ℕ}
      → Moves
          (unclear id activity_outcome)
          (StateTransition.resolve_ambiguity id false)
          (pending id activity_outcome)
  report :
      {id : ℕ} {kind : PublicationKind} {succeeded : Bool}
      → Moves
          (at_host id kind)
          (StateTransition.complete_host_action id succeeded)
          (pending id kind)
  close_unclear :
      {id : ℕ} {kind : PublicationKind} → Moves (unclear id kind) StateTransition.close resting
  close_pending :
      {id : ℕ} {kind : PublicationKind} → Moves (pending id kind) StateTransition.close resting

ruleset moves = (
  rest, begin, begin_outcome, restore, adopt, hand_over, doubt, fail, fail_outcome, find,
  find_attempt, miss, miss_outcome, report, close_unclear, close_pending,
)

-- In a pending phase there is a candidate.
kind_pending :
    (s : ContainerState)
    → IsWellFormed s
    → s.publication ≡ outcome_pending
    → (kind : PublicationKind) × (shown s ≡ pending s.last_operation_id kind)
kind_pending s v e = elim (Option-cases s.publication_kind) [
  | inl n ↦ absurd (let p = v.phase_ok in ground arith)
  | inr (kind, q) ↦ (kind, let p = v.id_ok in ground arith)
]

begun :
    (s : ContainerState) (id : ℕ) (kind : PublicationKind) {r : TransitionResult}
    → apply s (StateTransition.begin_publication id kind) ≡ ok r
    → shown r.state ≡ under_way id kind
unfolding apply
begun s id kind e = ground arith

begun_from :
    (s : ContainerState) (id : ℕ) (kind : PublicationKind) {r : TransitionResult}
    → apply s (StateTransition.begin_publication id kind) ≡ ok r
    → (s.last_operation_id < id)
      × (((is_activity_outcome kind ≡ false) × (s.publication ≡ idle))
          ⊎ ((kind ≡ activity_outcome) × (s.publication ≡ outcome_pending)))
unfolding apply
begun_from s id kind e = ground arith

-- From a well-formed state every accepted transition is a move of the protocol.
pub apply-Moves :
    (s : ContainerState) (t : StateTransition) {r : TransitionResult}
    → IsWellFormed s
    → apply s t ≡ ok r
    → Moves (shown s) t (shown r.state)
unfolding apply
apply-Moves s StateTransition.open_document v e = grind (arith, moves)
apply-Moves s (StateTransition.begin_publication id kind) {r} v e =
    let (fresh, from) = begun_from s id kind e in
    rw (begun s id kind e) (elim from [
      | inl (other, rests) ↦
          let none_shown : shown s ≡ resting = ground arith in rw none_shown (begin other)
      | inr (outcome, waits) ↦
          let (old, pends) = kind_pending s v waits in rw (pends, outcome) (begin_outcome fresh)
    ])
apply-Moves s _ v e = grind (arith, moves)
