-- ===== src/State/Freshness.antt =====
-- Operation ids over whole histories of src/container/container_state.cpp.
use scpefe.Base.{
  Bool, List, [], arith, err, false, fault, if◌then◌else◌, inl, inr, ok, refl, suc, true, ℕ, ◌++◌,
  ◌<◌, ◌∷◌, ◌≡◌, ◌≤◌, ◌⊎◌,
}
use scpefe.State.{apply}
use scpefe.State.Invariant.{IsWellFormed, apply-IsWellFormed, initial-IsWellFormed}
use scpefe.State.Journal.{in_flight}
use scpefe.State.Runs.{after, run}
use scpefe.State.Steps.{Transition}
use scpefe.State.Types.{
  ContainerState, EffectKind, RequiredEffect, StateTransition, TransitionResult, adopt_candidate,
  initial_state, publish_candidate, verified,
}

-- The ids of the effects of the kinds that `sel` selects.
abbrev pub ids_of : (EffectKind → Bool) → List RequiredEffect → List ℕ
ids_of sel [] = []
ids_of sel (e ∷ es) = let rest = ids_of sel es in if sel e.kind then e.operation_id ∷ rest else rest

-- Strictly rising from `n` on.
abbrev pub Rising : ℕ → List ℕ → Type 0
Rising n [] = Unit
Rising n (x ∷ xs) = (n ≤ x) × Rising (suc x) xs

ids_of-append :
    (sel : EffectKind → Bool) (es fs : List RequiredEffect)
    → ids_of sel (es ++ fs) ≡ ids_of sel es ++ ids_of sel fs
ids_of-append sel [] fs = refl
ids_of-append sel (e ∷ es) fs = ground (arith, ids_of-append sel es fs)

Rising-mono : {m n : ℕ} (xs : List ℕ) → m ≤ n → Rising n xs → Rising m xs
Rising-mono [] h r = tt
Rising-mono (x ∷ xs) h r = (omega arith, r.1)

-- One transition selects no id, or one between the bounds before and after it.
abbrev Advances : ℕ → ℕ → List ℕ → Type 0
Advances n m ids = ((ids ≡ []) × (n ≤ m)) ⊎ ((x : ℕ) × (ids ≡ x ∷ []) × (n ≤ x) × (x < m))

Advances-Rising :
    (n m : ℕ) (ids rest : List ℕ) → Advances n m ids → Rising m rest → Rising n (ids ++ rest)
Advances-Rising n m ids rest (inl (e, h)) r = rw e (Rising-mono rest h r)
Advances-Rising n m ids rest (inr (x, e, h, k)) r = rw e (h, Rising-mono rest k r)

module _ (sel : EffectKind → Bool) (bound : ContainerState → ℕ)
    (advance : (s : ContainerState) (t : StateTransition) (r : TransitionResult)
      → apply s t ≡ ok r
      → IsWellFormed s
      → Advances (bound s) (bound r.state) (ids_of sel r.effects)) where
  run_rises :
      (s : ContainerState) (ts : List StateTransition)
      → IsWellFormed s
      → Rising (bound s) (ids_of sel (run s ts).1)
  unfolding run
  run_rises s [] v = tt
  run_rises s (t ∷ ts) v =
      let (w, adv) = installed (apply s t) refl in
      rw (ids_of-append sel) (Advances-Rising _ _ _ _ adv (run_rises (after s (apply s t)).0 ts w))
    where
      installed :
          (x : Transition)
          → apply s t ≡ x
          → IsWellFormed (after s x).0
            × Advances (bound s) (bound (after s x).0) (ids_of sel (after s x).1)
      installed (ok r) e = (apply-IsWellFormed s t v e, advance s t r e v)
      installed (err x) e = (v, inl (refl, omega arith))
      installed fault e = (v, inl (refl, omega arith))

abbrev pub is_publish : EffectKind → Bool
is_publish publish_candidate = true
is_publish _ = false

abbrev pub is_adopt : EffectKind → Bool
is_adopt adopt_candidate = true
is_adopt _ = false

publish_bound : ContainerState → ℕ
publish_bound s = suc s.last_operation_id

publish_step :
    (s : ContainerState) (t : StateTransition) (r : TransitionResult)
    → apply s t ≡ ok r
    → IsWellFormed s
    → Advances (publish_bound s) (publish_bound r.state) (ids_of is_publish r.effects)
unfolding apply publish_bound
publish_step s (StateTransition.begin_publication id kind) r e v =
    inr (id, ground arith, ground arith, ground arith)
publish_step s t r e v = inl (ground arith, ground arith)

-- The candidate in flight is still to be adopted, an earlier one is not.
adopt_bound : ContainerState → ℕ
adopt_bound s = if in_flight s.publication then s.last_operation_id else suc s.last_operation_id

adopt_step :
    (s : ContainerState) (t : StateTransition) (r : TransitionResult)
    → apply s t ≡ ok r
    → IsWellFormed s
    → Advances (adopt_bound s) (adopt_bound r.state) (ids_of is_adopt r.effects)
unfolding apply adopt_bound
adopt_step s (StateTransition.acknowledge_publication id verified) r e v =
    inr (id, ground arith, ground arith, ground arith)
adopt_step s (StateTransition.resolve_ambiguity id true) r e v =
    inr (id, ground arith, ground arith, ground arith)
adopt_step s t r e v = inl (ground arith, ground arith)

-- Over any history from the initial state the ids under which candidates are published rise
-- strictly, and so do those under which candidates are adopted: no id is published or adopted twice.
pub run_fresh :
    (ts : List StateTransition)
    → Rising 1 (ids_of is_publish (run initial_state ts).1)
      × Rising 1 (ids_of is_adopt (run initial_state ts).1)
unfolding publish_bound adopt_bound
run_fresh ts = (
  run_rises is_publish publish_bound publish_step initial_state ts initial-IsWellFormed,
  run_rises is_adopt adopt_bound adopt_step initial_state ts initial-IsWellFormed,
)
