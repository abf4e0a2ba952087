-- ===== src/State/Runs.antt =====
-- Histories: sequences of transitions as `Container::install_transition` of
-- src/container/container.cpp installs them, where a refused one changes nothing.
use scpefe.Base.{List, [], err, fault, ok, refl, ◌++◌, ◌∷◌, ◌≡◌}
use scpefe.State.{apply}
use scpefe.State.Invariant.{IsWellFormed, apply-IsWellFormed, initial-IsWellFormed}
use scpefe.State.Steps.{Transition}
use scpefe.State.Types.{
  ContainerState, RequiredEffect, StateTransition, TransitionResult, initial_state,
}

abbrev pub after : ContainerState → Transition → ContainerState × List RequiredEffect
after s (ok r) = (r.state, r.effects)
after s (err e) = (s, [])
after s fault = (s, [])

-- The state at the end, and all effects in order.
unfoldable pub run : ContainerState → List StateTransition → ContainerState × List RequiredEffect
run s [] = (s, [])
run s (t ∷ ts) =
    let now = after s (apply s t) in let later = run now.0 ts in (later.0, now.1 ++ later.1)

-- A property of states that each accepted transition carries on.
module _ {ℓ} (P : ContainerState → Type ℓ)
    (keep : (s : ContainerState) (t : StateTransition) (r : TransitionResult)
      → apply s t ≡ ok r
      → P s
      → P r.state) where
  pub run_keeps : (s : ContainerState) (ts : List StateTransition) → P s → P (run s ts).0
  unfolding run
  run_keeps s [] p = p
  run_keeps s (t ∷ ts) p = run_keeps (after s (apply s t)).0 ts (installed (apply s t) refl)
    where
      installed : (x : Transition) → apply s t ≡ x → P (after s x).0
      installed (ok r) e = keep s t r e p
      installed (err x) e = p
      installed fault e = p

-- So a document session is well formed after any history.
pub run-IsWellFormed : (ts : List StateTransition) → IsWellFormed (run initial_state ts).0
run-IsWellFormed ts =
    run_keeps IsWellFormed (λ s t r e v. apply-IsWellFormed s t v e) initial_state ts
      initial-IsWellFormed
