-- ===== src/State/Writers.antt =====
-- Who may have a candidate under way, in src/container/container_state.cpp.
use scpefe.Base.{Bool, List, Option, arith, false, none, ok, some, true, ◌||◌, ◌≡◌}
use scpefe.State.{apply}
use scpefe.State.Invariant.{IsWellFormed, apply-IsWellFormed, initial-IsWellFormed}
use scpefe.State.Runs.{run, run_keeps}
use scpefe.State.Types.{
  ContainerState, PublicationKind, StateTransition, TransitionResult, editing, held, initial_state,
  is_compaction, is_idle, is_lease_change, is_save, no_attention, open_envelope, unlocked,
}

abbrev has_kind : (PublicationKind → Bool) → Option PublicationKind → Bool
has_kind sel none = false
has_kind sel (some kind) = sel kind

abbrev writes_content : PublicationKind → Bool
writes_content kind = is_save kind || is_compaction kind

-- What backs the candidate that is around, whatever came in between.
pub record IsBacked (s : ContainerState) : Type 0 where
  pub calm :
      is_idle s.publication ≡ false → (s.access ≡ open_envelope) × (s.attention ≡ no_attention)
  pub editor :
      has_kind writes_content s.publication_kind ≡ true
      → (s.screen ≡ unlocked)
        × (s.edit ≡ editing)
        × (s.lease ≡ held)
        × (s.permissions.can_edit ≡ true)
  pub manager :
      has_kind is_compaction s.publication_kind ≡ true
      → (s.permissions.can_add_passwords ≡ true) × (s.permissions.can_remove_passwords ≡ true)
  pub reader :
      has_kind is_lease_change s.publication_kind ≡ false
      → is_idle s.publication ≡ false
      → s.screen ≡ unlocked

apply-IsBacked :
    (s : ContainerState) (t : StateTransition) (r : TransitionResult)
    → apply s t ≡ ok r
    → IsWellFormed s × IsBacked s
    → IsWellFormed r.state × IsBacked r.state
unfolding apply
apply-IsBacked s t r e (v, b) = (apply-IsWellFormed s t v e, backed t e)
  where
    backed : (t : StateTransition) → apply s t ≡ ok r → IsBacked r.state
    backed StateTransition.open_document e = ground arith
    backed _ e = ground arith

-- After any history, while a candidate is around the document is open and no decision is open; the
-- writer of a save or a compaction still edits under the held lease with the right to edit, and for
-- a compaction with the rights to manage passwords; and only a lease change has a locked screen.
pub run-IsBacked : (ts : List StateTransition) → IsBacked (run initial_state ts).0
run-IsBacked ts =
    (run_keeps (λ s. IsWellFormed s × IsBacked s) apply-IsBacked initial_state ts
      (initial-IsWellFormed, ground arith)).1
