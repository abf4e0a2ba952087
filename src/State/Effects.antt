-- ===== src/State/Effects.antt =====
-- What the effects of src/container/container_state.cpp tell the host, against the states.
use scpefe.Base.{Bool, List, Option, [], arith, false, none, ok, some, true, ◌∷◌, ◌≡◌}
use scpefe.State.{apply}
use scpefe.State.Types.{
  ContainerState, EffectKind, RequiredEffect, StateTransition, TransitionResult, clear_display,
  is_editing, is_unlocked, publish_candidate, start_heartbeat, stop_heartbeat,
}

-- The heartbeat of the host, which runs or not: `none` if it is started twice or stopped twice.
abbrev pub beat : EffectKind → Bool → Option Bool
beat start_heartbeat false = some true
beat start_heartbeat true = none
beat stop_heartbeat true = some false
beat stop_heartbeat false = none
beat _ running = some running

abbrev pub heartbeat : Bool → List RequiredEffect → Option Bool
heartbeat running [] = some running
heartbeat running (e ∷ es) = elim (beat e.kind running) [
  | none ↦ none
  | some now ↦ heartbeat now es
]

abbrev pub clears_display : List RequiredEffect → Bool
clears_display [] = false
clears_display (e ∷ es) =
    let rest = clears_display es in elim e.kind [ clear_display ↦ true | _ ↦ rest ]

-- The host's heartbeat runs exactly while the session edits, and is never started or stopped twice.
pub apply-heartbeat :
    (s : ContainerState) (t : StateTransition) {r : TransitionResult}
    → apply s t ≡ ok r
    → heartbeat (is_editing s.edit) r.effects ≡ some (is_editing r.state.edit)
unfolding apply
apply-heartbeat s StateTransition.open_document e = ground arith
apply-heartbeat s _ e = ground arith

-- Whenever a transition locks an unlocked screen it has the display cleared, and the display is
-- cleared only where the screen is locked afterwards.
pub apply-clear_display :
    (s : ContainerState) (t : StateTransition) {r : TransitionResult}
    → apply s t ≡ ok r
    → (is_unlocked s.screen ≡ true
        → is_unlocked r.state.screen ≡ false
        → clears_display r.effects ≡ true)
      × (clears_display r.effects ≡ true → is_unlocked r.state.screen ≡ false)
unfolding apply
apply-clear_display s StateTransition.open_document e = ground arith
apply-clear_display s _ e = ground arith

-- The host publishes only through `BeginPublication`: first it rereads the target, then it
-- journals the candidate, then it publishes it, all under one operation id.
abbrev pub publishes : List RequiredEffect → Bool
publishes [] = false
publishes (e ∷ es) = let rest = publishes es in elim e.kind [ publish_candidate ↦ true | _ ↦ rest ]
