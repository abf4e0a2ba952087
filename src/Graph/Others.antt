-- ===== src/Graph/Others.antt =====
-- What the rights of a slot allow `PasswordSlots::apply` of src/container/password_slots.cpp to
-- change.
use scpefe.Base.{
  Bool, Bool-cases, Bytes, List, Option-cases, [], ap, arith, bytes_eq, false, get_elem?, inl, inr,
  ok, refl, some, suc, sym, true, zero, ℕ, ◌∙◌, ◌∷◌, ◌≡◌, ◌≢◌,
}
use scpefe.Graph.Authority.{find_slot-get_elem?}
use scpefe.Graph.Changes.{
  Actor, SlotChange, SlotChangeKind, SlotChangeResult, apply_change, apply_invitation, apply_kind,
  apply_permissions, apply_removal, bit, find_slot, replace_at,
}
use scpefe.Graph.Kept.{change_ok, claim_ok, identity_ok}
use scpefe.Graph.Records.{RevisionSlot}

get_elem?-replace_at :
    (i j : ℕ) (new : RevisionSlot) (slots : List RevisionSlot)
    → i ≢ j
    → get_elem? (replace_at i new slots) j ≡ get_elem? slots j
unfolding replace_at
get_elem?-replace_at i j new [] h = refl
get_elem?-replace_at zero zero new (x ∷ xs) h = absurd (h refl)
get_elem?-replace_at zero (suc j) new (x ∷ xs) h = refl
get_elem?-replace_at (suc i) zero new (x ∷ xs) h = refl
get_elem?-replace_at (suc i) (suc j) new (x ∷ xs) h =
    get_elem?-replace_at i j new xs (λ e. h (ap suc e))

unmanaged :
    (actor : Actor) (id management_id : Bytes) (active : RevisionSlot) (index j : ℕ)
    (slots : List RevisionSlot) (change : SlotChange) (kind : SlotChangeKind) {r : SlotChangeResult}
    → change.kind ≡ kind
    → bit 2 actor.permissions ≡ false
    → bit 4 actor.permissions ≡ false
    → index ≢ j
    → apply_kind actor id management_id active index slots change ≡ ok r
    → get_elem? r.slots j ≡ get_elem? slots j
unfolding apply_kind
unmanaged actor id management_id active index j slots change SlotChangeKind.change_password {r} q h2
      h4 ne e =
    let same : slots ≡ r.slots = ground arith in rw (sym same) refl
unmanaged actor id management_id active index j slots change SlotChangeKind.add_invitation q h2 h4
      ne e =
    absurd (unfold apply_invitation in ground arith)
unmanaged actor id management_id active index j slots change SlotChangeKind.claim_invitation q h2 h4
      ne e =
    let (hv, eq) = claim_ok actor active index slots change (rw q at e) in
    rw eq (get_elem?-replace_at index j _ slots ne)
unmanaged actor id management_id active index j slots change SlotChangeKind.reconcile_identity q h2
      h4 ne e =
    let (hv, eq) = identity_ok actor active index slots change (rw q at e) in
    rw eq (get_elem?-replace_at index j _ slots ne)
unmanaged actor id management_id active index j slots change SlotChangeKind.update_permissions q h2
      h4 ne e =
    absurd (unfold apply_permissions in ground arith)
unmanaged actor id management_id active index j slots change SlotChangeKind.remove_slot q h2 h4 ne
      e =
    absurd (unfold apply_removal in ground arith)

found_id :
    (id : Bytes) (slots : List RevisionSlot) {found : RevisionSlot} {i : ℕ}
    → find_slot id slots ≡ some (found, i)
    → bytes_eq found.id id ≡ true
unfolding find_slot
found_id id [] e = cc
found_id id (x ∷ xs) {found} {i} e = elim (Bool-cases (bytes_eq x.id id)) [
  | inl y ↦ ground arith
  | inr y ↦ elim (Option-cases (find_slot id xs)) [
    | inl n ↦ ground arith
    | inr ((f, j), q) ↦ ground (arith, found_id id xs q)
  ]
]

-- A slot without the rights to add or remove passwords changes no slot but its own: every slot with
-- another id stays in its place as it is.
pub unmanaged_slots_kept :
    (strong unused : Bool) (actor : Actor) (id management_id : Bytes) (slots : List RevisionSlot)
    (change : SlotChange) (j : ℕ) (other : RevisionSlot) {r : SlotChangeResult}
    → bit 2 actor.permissions ≡ false
    → bit 4 actor.permissions ≡ false
    → apply_change strong unused actor id management_id slots change ≡ ok r
    → get_elem? slots j ≡ some other
    → bytes_eq other.id actor.slot_id ≡ false
    → get_elem? r.slots j ≡ some other
unmanaged_slots_kept strong unused actor id management_id slots change j other h2 h4 e at_j ne =
    let (active, index, found, k) = change_ok strong unused actor id management_id slots change e in
    let mine = found_id actor.slot_id slots found in
    let at_i = find_slot-get_elem? actor.slot_id slots found in
    unmanaged actor id management_id active index j slots change change.kind refl h2 h4
      (λ same. ground arith) k
    ∙ at_j
