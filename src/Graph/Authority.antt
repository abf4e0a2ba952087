-- ===== src/Graph/Authority.antt =====
-- What the changes of src/container/password_slots.cpp keep, for the decoder of
-- src/format/revision_graph.cpp and for the other slots.
use scpefe.Base.{
  All, Bool-cases, Bytes, List, Option, Option-cases, [], ap, arith, bytes_eq, false, get_elem?,
  if◌then◌else◌, inl, inr, is_empty, none, some, suc, true, zero, ℕ, ◌<◌, ◌==◌, ◌∷◌, ◌≡◌, ◌≢◌, ◌≤◌,
}
use scpefe.Graph.Changes.{
  SlotChange, erase_at, find_slot, insert_invitation, replace_at, valid_name, valid_permissions,
}
use scpefe.Graph.Records.{RevisionSlot}

-- The part of the decoder's test that is about one slot.
abbrev pub IsSlot : RevisionSlot → Type 0
IsSlot slot =
    (slot.permissions < 8)
    × (slot.role ≤ 2)
    × (slot.role ≢ 1 → (slot.permissions ≡ 7) × (slot.must_be_changed ≡ false))
    × (slot.role ≢ 2
        → (is_empty slot.name ≡ false)
          × (slot.must_be_changed ≡ false → is_empty slot.email ≡ false))

pub find_slot-get_elem? :
    (id : Bytes) (slots : List RevisionSlot) {found : RevisionSlot} {i : ℕ}
    → find_slot id slots ≡ some (found, i)
    → get_elem? slots i ≡ some found
unfolding find_slot
find_slot-get_elem? id [] e = cc
find_slot-get_elem? id (x ∷ xs) {found} {i} e = elim (Bool-cases (bytes_eq x.id id)) [
  | inl y ↦ ground arith
  | inr y ↦ elim (Option-cases (find_slot id xs)) [
    | inl n ↦ ground arith
    | inr ((f, j), q) ↦ ground (arith, find_slot-get_elem? id xs q)
  ]
]

pub All-get_elem? :
    (P : RevisionSlot → Type 0) (slots : List RevisionSlot) (i : ℕ) {found : RevisionSlot}
    → All P slots
    → get_elem? slots i ≡ some found
    → P found
All-get_elem? P [] i h e = cc
All-get_elem? P (x ∷ xs) zero (h, hs) e = rw (ap (λ o. value o x) e) at h
  where
    value : Option RevisionSlot → RevisionSlot → RevisionSlot
    value none d = d
    value (some v) d = v
All-get_elem? P (x ∷ xs) (suc i) (h, hs) e = All-get_elem? P xs i hs e

pub All-replace_at :
    (P : RevisionSlot → Type 0) (i : ℕ) (slot : RevisionSlot) (slots : List RevisionSlot)
    → All P slots
    → P slot
    → All P (replace_at i slot slots)
unfolding replace_at
All-replace_at P i slot [] h p = tt
All-replace_at P zero slot (x ∷ xs) (h, hs) p = (p, hs)
All-replace_at P (suc i) slot (x ∷ xs) (h, hs) p = (h, All-replace_at P i slot xs hs p)

pub All-erase_at :
    (P : RevisionSlot → Type 0) (i : ℕ) (slots : List RevisionSlot)
    → All P slots
    → All P (erase_at i slots)
unfolding erase_at
All-erase_at P i [] h = tt
All-erase_at P zero (x ∷ xs) (h, hs) = hs
All-erase_at P (suc i) (x ∷ xs) (h, hs) = (h, All-erase_at P i xs hs)

pub All-insert_invitation :
    (P : RevisionSlot → Type 0) (new : RevisionSlot) (slots : List RevisionSlot)
    → All P slots
    → P new
    → All P (insert_invitation new slots)
unfolding insert_invitation
All-insert_invitation P new [] h p = (p, tt)
All-insert_invitation P new (x ∷ xs) (h, hs) p = elim (Bool-cases (x.role == 2)) [
  | inl y ↦ rw y (p, (h, hs))
  | inr y ↦ rw y (h, All-insert_invitation P new xs hs p)
]

-- Slots of the roles 0 and 2.
unfoldable pub special_ids : List RevisionSlot → List Bytes
special_ids [] = []
special_ids (slot ∷ slots) =
    let rest = special_ids slots in if slot.role == 1 then rest else slot.id ∷ rest

pub special_ids-insert_invitation :
    (new : RevisionSlot) (slots : List RevisionSlot)
    → new.role ≡ 1
    → special_ids (insert_invitation new slots) ≡ special_ids slots
unfolding special_ids insert_invitation
special_ids-insert_invitation new [] h = ground arith
special_ids-insert_invitation new (x ∷ xs) h =
    ground (arith, special_ids-insert_invitation new xs h)

pub special_ids-erase_at :
    (i : ℕ) (slots : List RevisionSlot) {found : RevisionSlot}
    → get_elem? slots i ≡ some found
    → found.role ≡ 1
    → special_ids (erase_at i slots) ≡ special_ids slots
unfolding special_ids erase_at
special_ids-erase_at i [] e h = cc
special_ids-erase_at zero (x ∷ xs) e h = ground arith
special_ids-erase_at (suc i) (x ∷ xs) e h = ground (arith, special_ids-erase_at i xs e h)

pub special_ids-replace_at :
    (i : ℕ) (slots : List RevisionSlot) (new : RevisionSlot) {found : RevisionSlot}
    → get_elem? slots i ≡ some found
    → new.role ≡ found.role
    → new.id ≡ found.id
    → special_ids (replace_at i new slots) ≡ special_ids slots
unfolding special_ids replace_at
special_ids-replace_at i [] new e h k = cc
special_ids-replace_at zero (x ∷ xs) new e h k = ground arith
special_ids-replace_at (suc i) (x ∷ xs) new e h k =
    ground (arith, special_ids-replace_at i xs new e h k)

-- The invitation that is inserted.
pub invitation-IsSlot :
    (id management_id : Bytes) (change : SlotChange)
    → valid_permissions change.permissions ≡ true
    → valid_name change.name ≡ true
    → IsSlot (record {
      id = id;
      management_id = management_id;
      permissions = change.permissions;
      role = 1;
      must_be_changed = true;
      name = change.name;
      email = [];
    })
unfolding valid_permissions valid_name
invitation-IsSlot id management_id change h k = ground arith
