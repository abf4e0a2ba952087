-- ===== src/Graph/Kept.antt =====
-- What `PasswordSlots::apply` of src/container/password_slots.cpp keeps.
use scpefe.Base.{
  All, Bool, Bytes, List, Option-cases, Outcome-cases, ap, arith, false, inl, inr, ok, some, true,
  ℕ, ◌∙◌, ◌≡◌, ◌≢◌,
}
use scpefe.Graph.Accepted.{IsAccepted}
use scpefe.Graph.Authority.{special_ids}
use scpefe.Graph.Changes.{
  Actor, SlotChange, SlotChangeResult, apply_change, apply_claim, apply_identity, apply_kind,
  find_slot, replace_at, valid_identity,
}
use scpefe.Graph.Collections.{IsCollection}
use scpefe.Graph.Records.{RevisionSlot}

-- The slots are a collection, and the owner and recovery slots are the same.
abbrev KeepsCollection : List RevisionSlot → List RevisionSlot → Type 0
KeepsCollection new slots = IsCollection new × (special_ids new ≡ special_ids slots)

-- No slot has the random ids.
abbrev pub AreFresh : Bytes → Bytes → List RevisionSlot → Type 0
AreFresh id management_id slots =
    All (λ slot. slot.id ≢ id) slots × All (λ slot. slot.management_id ≢ management_id) slots

pub claim_ok :
    (actor : Actor) (active : RevisionSlot) (index : ℕ) (slots : List RevisionSlot)
    (change : SlotChange) {r : SlotChangeResult}
    → apply_claim actor active index slots change ≡ ok r
    → (valid_identity change.name change.email ≡ true)
      × (r.slots
          ≡ replace_at index
              (record active { must_be_changed = false; name = change.name; email = change.email })
              slots)
unfolding apply_claim
claim_ok actor active index slots change e = ground arith

pub identity_ok :
    (actor : Actor) (active : RevisionSlot) (index : ℕ) (slots : List RevisionSlot)
    (change : SlotChange) {r : SlotChangeResult}
    → apply_identity actor active index slots change ≡ ok r
    → (valid_identity change.name change.email ≡ true)
      × (r.slots
          ≡ replace_at index (record active { name = change.name; email = change.email }) slots)
unfolding apply_identity
identity_ok actor active index slots change e = ground arith

pub change_ok :
    (strong unused : Bool) (actor : Actor) (id management_id : Bytes) (slots : List RevisionSlot)
    (change : SlotChange) {r : SlotChangeResult}
    → apply_change strong unused actor id management_id slots change ≡ ok r
    → (active : RevisionSlot) × (index : ℕ) × (find_slot actor.slot_id slots ≡ some (active, index))
      × (apply_kind actor id management_id active index slots change ≡ ok r)
unfolding apply_change
change_ok strong unused actor id management_id slots change {r} e =
    elim (Option-cases (find_slot actor.slot_id slots)) [
      | inl n ↦ absurd (ground arith)
      | inr ((active, index), q) ↦
          elim (Outcome-cases (apply_kind actor id management_id active index slots change)) [
            | inl (s, k) ↦ (active, index, q, k ∙ ap ok (ground arith))
            | inr other ↦ absurd (ground arith)
          ]
    ]

-- The slots pass the decoder's tests, so that they are a collection with the owner in front and a
-- recovery slot at the end; and these two are the same slots as before.
abbrev pub Keeps : List RevisionSlot → List RevisionSlot → Type 0
Keeps new slots = IsAccepted new × IsCollection new × (special_ids new ≡ special_ids slots)
