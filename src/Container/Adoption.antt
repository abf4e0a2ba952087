-- ===== src/Container/Adoption.antt =====
-- What a publication result does to the container of src/container/container.cpp.
use scpefe.Base.{
  Bool, Bytes, Option, Outcome, Outcome-cases, arith, false, if◌then◌else◌, inl, inr, none, not, ok,
  refl, some, true, ℕ, ◌%◌, ◌&&◌, ◌+◌, ◌<◌, ◌^◌, ◌||◌, ◌∙◌, ◌≡◌, ◌≢◌, ◌≤◌, ◌⊎◌,
}
use scpefe.Container.Content.{submit_content}
use scpefe.Container.Install.{
  ContainerState-discrete, Installs, acknowledge_save, adopt, finish, follow_up, install_transition,
  is_close, is_verified, nested, resolve_save, session_after, settle,
}
use scpefe.Container.Session.{Container, ContainerCandidate, rights_of}
use scpefe.State.{apply}
use scpefe.State.Steps.{coherent}
use scpefe.State.Types.{
  ContainerState, PublicationKind, PublicationOutcome, StateError, StateTransition,
  TransitionResult, ambiguous, is_attempt, is_idle, is_publishing, is_recovery, is_unlocked,
  open_envelope, verified,
}

-- A candidate that is in flight, as the prepare functions leave it with its publication begun:
-- an open screen except for a release of the lease, rights that are coherent, and no host action
-- for a candidate that changes a slot or the lease.
abbrev pub locked_release : ContainerCandidate → Bool
locked_release k =
    k.lease_change && not k.lease_held_after && not k.slot_change && not k.removes_active_slot

abbrev pub kind_allows : Option PublicationKind → ContainerCandidate → Bool
kind_allows none k = false
kind_allows (some kind) k =
    not (is_attempt kind) || not (k.removes_active_slot || k.slot_change || k.lease_change)

abbrev pub IsInFlight : ContainerState → ContainerCandidate → Type 0
IsInFlight s k =
    (s.operation_id ≡ some k.operation_id)
    × (s.access ≡ open_envelope)
    × (is_unlocked s.screen || locked_release k ≡ true)
    × (kind_allows s.publication_kind k ≡ true)
    × (k.slot_change ≡ true → coherent (rights_of k.adopted_data.permissions) ≡ true)

-- Whether the outcome leaves the publication undecided.
abbrev pub is_ambiguous : PublicationOutcome → Bool
is_ambiguous ambiguous = true
is_ambiguous _ = false

abbrev pub returned : Outcome StateError TransitionResult → Option ContainerState
returned (ok r) = some r.state
returned _ = none

-- The result of a call that takes the bytes of the candidate.
abbrev pub Adopts : Installs → ContainerCandidate → Type 0
Adopts a k =
    (returned a.1 ≡ some a.0.state)
    × (a.0.committed_bytes ≡ k.bytes)
    × (a.0.candidate ≡ none)
    × (a.0.transitioning ≡ false)

-- A result that settles the candidate, for the phase it may arrive in.
abbrev Settles : StateTransition → ContainerState → ℕ → Type 0
Settles t s id =
    ((t ≡ StateTransition.acknowledge_publication id verified)
      × (is_publishing s.publication ≡ true))
    ⊎ ((t ≡ StateTransition.resolve_ambiguity id true) × (is_recovery s.publication ≡ true))

-- The state in which the transition that follows an adoption is accepted.
abbrev IsReady : ContainerState → ContainerCandidate → Type 0
IsReady s k =
    (s.access ≡ open_envelope)
    × (is_unlocked s.screen || locked_release k ≡ true)
    × (k.removes_active_slot || k.slot_change || k.lease_change ≡ true
        → is_idle s.publication ≡ true)

Settles-accepted :
    (s : ContainerState) (k : ContainerCandidate) (t : StateTransition)
    → Settles t s k.operation_id
    → IsInFlight s k
    → returned (apply s t) ≢ none
unfolding apply
Settles-accepted s k t h f = ground arith

Settles-IsReady :
    (s : ContainerState) (k : ContainerCandidate) (t : StateTransition) {r : TransitionResult}
    → Settles t s k.operation_id
    → IsInFlight s k
    → apply s t ≡ ok r
    → IsReady r.state k
unfolding apply
Settles-IsReady s k t h f e = ground arith

Settles-moves :
    (s : ContainerState) (k : ContainerCandidate) (t : StateTransition) {r : TransitionResult}
    → Settles t s k.operation_id
    → apply s t ≡ ok r
    → r.state ≢ s
unfolding apply
Settles-moves s k t h e = ground arith

-- What a step of the installation leaves alone.
abbrev SameImage : Installs → Container → Type 0
SameImage a c =
    (returned a.1 ≡ some a.0.state)
    × (a.0.committed_bytes ≡ c.committed_bytes)
    × (a.0.candidate ≡ c.candidate)

nested-SameImage :
    (c : Container) (k : ContainerCandidate) (r : TransitionResult)
    → IsReady c.state k
    → (k.slot_change ≡ true → coherent (rights_of k.adopted_data.permissions) ≡ true)
    → r.state ≡ c.state
    → SameImage (nested c r (follow_up k)) c
unfolding nested follow_up apply
nested-SameImage c k r h hc e = ground arith

finish-SameImage :
    (t : StateTransition) (a : Installs)
    → is_verified t ≡ true
    → returned a.1 ≡ some a.0.state
    → SameImage (finish t a) a.0 × ((finish t a).0.transitioning ≡ false)
unfolding finish
finish-SameImage t a ht h = ground arith

abbrev adopting : Container → TransitionResult → ContainerCandidate → Container
adopting c r k =
    let begun = record c { transitioning = true; state = r.state } in
    record (adopt begun c.state k) { local_lease_session = session_after begun k }

install_transition-verified :
    (c : Container) (k : ContainerCandidate) (t : StateTransition) {r : TransitionResult}
    → c.transitioning ≡ false
    → c.candidate ≡ some k
    → is_verified t ≡ true
    → apply c.state t ≡ ok r
    → r.state ≢ c.state
    → install_transition c t ≡ finish t (nested (adopting c r k) r (follow_up k))
unfolding install_transition settle
install_transition-verified c k t {r} ht hk hv e ne =
    elim (ContainerState-discrete r.state c.state) [ yes p ↦ absurd (ne p) | no n ↦ ground arith ]

Settles-Adopts :
    (c : Container) (k : ContainerCandidate) (t : StateTransition)
    → c.transitioning ≡ false
    → c.candidate ≡ some k
    → Settles t c.state k.operation_id
    → IsInFlight c.state k
    → Adopts (install_transition c t) k
unfolding adopt
Settles-Adopts c k t ht hk h f = elim (Outcome-cases (apply c.state t)) [
  | inl (r, e) ↦
      let ready = Settles-IsReady c.state k t h f e in
      let moved = Settles-moves c.state k t h e in
      let begun = adopting c r k in
      let hv : is_verified t ≡ true = ground arith in
      let (ret, image, cand) = nested-SameImage begun k r ready f.4 refl in
      let ((ret', image', cand'), done) =
        finish-SameImage t (nested begun r (follow_up k)) hv ret in
      rw (install_transition-verified c k t ht hk hv e moved)
        (ret', image' ∙ image, cand' ∙ cand, done)
  | inr other ↦ absurd (Settles-accepted c.state k t h f (ground arith))
]

-- While no transition is under way and the phase is publishing, a verified result for a candidate
-- in flight is never refused and never leaves the container in the middle of a transition: the
-- candidate's bytes become the committed image, and the candidate is dropped.
pub acknowledge_save-Adopts :
    (c : Container) (k : ContainerCandidate)
    → c.transitioning ≡ false
    → c.candidate ≡ some k
    → is_publishing c.state.publication ≡ true
    → IsInFlight c.state k
    → Adopts (acknowledge_save c k.operation_id verified) k
unfolding acknowledge_save
acknowledge_save-Adopts c k ht hk hp hf =
    let a =
      Settles-Adopts c k (StateTransition.acknowledge_publication k.operation_id verified) ht hk
        (inl (refl, hp)) hf in
    ground arith

-- While no transition is under way and the phase is that of an ambiguous outcome, the report that
-- a candidate in flight was published is never refused and never leaves the container in the
-- middle of a transition: the candidate's bytes become the committed image, and the candidate is
-- dropped.
pub resolve_save-Adopts :
    (c : Container) (k : ContainerCandidate)
    → c.transitioning ≡ false
    → c.candidate ≡ some k
    → is_recovery c.state.publication ≡ true
    → IsInFlight c.state k
    → Adopts (resolve_save c k.operation_id true) k
unfolding resolve_save
resolve_save-Adopts c k ht hk hp hf =
    let a =
      Settles-Adopts c k (StateTransition.resolve_ambiguity k.operation_id true) ht hk
        (inr (refl, hp)) hf in
    ground arith

-- The document as the container holds it, apart from the candidate.
abbrev pub SameDocument : Container → Container → Type 0
SameDocument c d =
    (c.committed_bytes ≡ d.committed_bytes)
    × (c.unlocked ≡ d.unlocked)
    × (c.content_clear ≡ d.content_clear)
    × (c.pending_activity ≡ d.pending_activity)

-- An accepted result other than a verified one drops the retained candidate if it is a definite
-- failure and keeps it if it is ambiguous; neither touches the committed image, the unlocked data,
-- the clear text or the pending activity.
pub acknowledge_save-SameDocument :
    (c : Container) (k : ContainerCandidate) (id : ℕ) (outcome : PublicationOutcome)
    {r : TransitionResult}
    → c.candidate ≡ some k
    → outcome ≢ verified
    → (acknowledge_save c id outcome).1 ≡ ok r
    → SameDocument (acknowledge_save c id outcome).0 c
      × ((acknowledge_save c id outcome).0.candidate
          ≡ (if is_ambiguous outcome then some k else none))
unfolding acknowledge_save install_transition apply
acknowledge_save-SameDocument c k id outcome hk hv e = ground arith

install_transition-content_clear :
    (c : Container) (k : ContainerCandidate) (t : StateTransition)
    → c.candidate ≡ some k
    → k.submitted_generation ≢ c.content_generation
    → is_close t ≡ false
    → (install_transition c t).0.content_clear ≡ c.content_clear
unfolding install_transition
install_transition-content_clear c k t hk hg ht = ground arith

submit_content-fields :
    (c : Container) (content : Bytes) {d : Container}
    → submit_content c content ≡ ok d
    → (d.candidate ≡ c.candidate)
      × (d.content_clear ≡ some content)
      × (d.content_generation ≡ (c.content_generation + 1) % 2 ^ 64)
unfolding submit_content
submit_content-fields c content e = ground arith

-- Text that is submitted while a candidate is retained, which was prepared at or before the count
-- of submissions of then, is not lost when the candidate is adopted, or when any other accepted or
-- refused transition but `Close` is installed, also if that candidate discards the text it was
-- prepared from. The count has not reached its 64 bits.
pub submitted_text_kept :
    (c : Container) (k : ContainerCandidate) (content : Bytes) (t : StateTransition) {d : Container}
    → submit_content c content ≡ ok d
    → c.candidate ≡ some k
    → k.submitted_generation ≤ c.content_generation
    → c.content_generation + 1 < 2 ^ 64
    → is_close t ≡ false
    → (install_transition d t).0.content_clear ≡ some content
submitted_text_kept c k content t {d} e hk hg hb ht =
    let (cand, text, gen) = submit_content-fields c content e in
    install_transition-content_clear d k t (cand ∙ hk) (λ h. ground arith) ht ∙ text
