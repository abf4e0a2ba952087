-- ===== src/State/Host.antt =====
-- The host over whole histories of src/container/container_state.cpp: its heartbeat and its journal.
use scpefe.Base.{
  Bool, List, Option, Option-cases, [], arith, err, false, fault, inl, inr, none, ok, refl, some, ℕ,
  ◌++◌, ◌∙◌, ◌∷◌, ◌≡◌,
}
use scpefe.State.{apply}
use scpefe.State.Effects.{apply-heartbeat, beat, heartbeat}
use scpefe.State.Journal.{Journaled, apply-journal, journal, journal_step}
use scpefe.State.Runs.{after, run}
use scpefe.State.Steps.{Transition}
use scpefe.State.Types.{ContainerState, RequiredEffect, StateTransition, initial_state, is_editing}

heartbeat-append :
    (b c : Bool) (es fs : List RequiredEffect)
    → heartbeat b es ≡ some c
    → heartbeat b (es ++ fs) ≡ heartbeat c fs
heartbeat-append b c [] fs h = ground arith
heartbeat-append b c (e ∷ es) fs h = elim (Option-cases (beat e.kind b)) [
  | inl n ↦ cc (rw (n, heartbeat) at h)
  | inr (now, n) ↦ rw (n, heartbeat) (heartbeat-append now c es fs (rw (n, heartbeat) at h))
]

journal-append :
    (j k : Option ℕ) (es fs : List RequiredEffect)
    → journal j es ≡ some k
    → journal j (es ++ fs) ≡ journal k fs
journal-append j k [] fs h = ground arith
journal-append j k (e ∷ es) fs h = elim (Option-cases (journal_step j e)) [
  | inl n ↦ cc (rw (n, journal) at h)
  | inr (now, n) ↦ rw (n, journal) (journal-append now k es fs (rw (n, journal) at h))
]

-- What the host makes of a log, starting with heartbeat `b` and journal `j`.
abbrev pub Serves : ContainerState → Bool → Option ℕ → List RequiredEffect → Type 0
Serves s b j log =
    (heartbeat b log ≡ some (is_editing s.edit))
    × ((k : Option ℕ) × (journal j log ≡ some k) × Journaled s k)

run_host :
    (s : ContainerState) (ts : List StateTransition) (j : Option ℕ)
    → Journaled s j
    → Serves (run s ts).0 (is_editing s.edit) j (run s ts).1
unfolding run
run_host s [] j h = (refl, (j, refl, h))
run_host s (t ∷ ts) j h =
    let (hb, (k, hj, w)) = installed (apply s t) refl in
    let next = after s (apply s t) in
    let (lb, (l, lj, x)) = run_host next.0 ts k w in
    (heartbeat-append _ _ next.1 _ hb ∙ lb, (l, journal-append _ _ next.1 _ hj ∙ lj, x))
  where
    installed :
        (x : Transition) → apply s t ≡ x → Serves (after s x).0 (is_editing s.edit) j (after s x).1
    installed (ok r) e = (apply-heartbeat s t e, apply-journal s t j h e)
    installed (err x) e = (refl, (j, refl, h))
    installed fault e = (refl, (j, refl, h))

-- Over any history from the initial state, with no heartbeat and an empty journal at its start, the
-- host can follow every effect: the heartbeat is never started or stopped twice and at the end it
-- runs exactly if the session edits, and no candidate but the journaled one is published, adopted,
-- recovered or cleared.
pub run-Serves :
    (ts : List StateTransition)
    → Serves (run initial_state ts).0 false none (run initial_state ts).1
run-Serves ts = run_host initial_state ts none (λ e. cc)
