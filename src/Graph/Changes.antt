-- ===== src/Graph/Changes.antt =====
-- `PasswordSlots::apply` of src/container/password_slots.cpp, on the slots of the revision graph.
-- The password policy and the test for reuse, which call other services, and the random ids are
-- arguments.
use scpefe.Base.{
  Bool, Bytes, List, Option, Outcome, [], bytes_eq, err, false, if◌then◌else◌, is_empty, leb,
  length, ltb, none, not, ok, require_or, some, suc, true, zero, ℕ, ◌%◌, ◌&&◌, ◌+◌, ◌/◌, ◌==◌,
  ◌>>=◌, ◌>>◌, ◌||◌, ◌∷◌,
}
use scpefe.Graph.Records.{RevisionSlot}
use scpefe.Text.{valid_utf8}

pub data SlotChangeKind : Type 0 where
  change_password add_invitation claim_invitation : SlotChangeKind
  reconcile_identity update_permissions remove_slot : SlotChangeKind

pub record SlotChange : Type 0 where
  pub kind : SlotChangeKind
  pub target_id : Bytes
  pub new_password : Bytes
  pub permissions : ℕ
  pub name : Bytes
  pub email : Bytes

pub data SlotError : Type 0 where
  malformed_container weak_password slot_limit invalid_change password_in_use : SlotError

pub record SlotChangeResult : Type 0 where
  pub slots : List RevisionSlot
  pub affected_id : Bytes
  pub wrapper_index : ℕ
  pub wrapper_mode : ℕ
  pub remove_active : Bool

-- What the slot that is unlocked may do, from the authenticated image.
pub record Actor : Type 0 where
  pub slot_id : Bytes
  pub permissions : ℕ
  pub must_be_changed : Bool

abbrev pub is_password_change : SlotChangeKind → Bool
is_password_change SlotChangeKind.change_password = true
is_password_change SlotChangeKind.add_invitation = true
is_password_change SlotChangeKind.claim_invitation = true
is_password_change _ = false

-- The bits of a permission byte below 8.
abbrev pub bit : ℕ → ℕ → Bool
bit place p = p / place % 2 == 1

unfoldable pub within : ℕ → ℕ → Bool
within p q =
    (not (bit 1 p) || bit 1 q)
    && (not (bit 2 p) || bit 2 q)
    && (not (bit 4 p) || bit 4 q)
    && p / 8 == 0

unfoldable pub valid_permissions : ℕ → Bool
valid_permissions p = ltb p 8 && (not (bit 2 p || bit 4 p) || bit 1 p)

unfoldable pub valid_name : Bytes → Bool
valid_name name = not (is_empty name) && leb (length name) 4096 && valid_utf8 name

unfoldable pub valid_identity : Bytes → Bytes → Bool
unfolding valid_name
valid_identity name email = valid_name name && valid_name email

-- `find_if` on the id: the slot, and its index.
unfoldable pub find_slot : Bytes → List RevisionSlot → Option (RevisionSlot × ℕ)
find_slot id [] = none
find_slot id (slot ∷ slots) =
    let rest = find_slot id slots in
    if bytes_eq slot.id id
    then some (slot, 0)
    else elim rest [ none ↦ none | some (found, i) ↦ some (found, i + 1) ]

unfoldable pub count_ordinary : List RevisionSlot → ℕ
count_ordinary [] = 0
count_ordinary (slot ∷ slots) = (if slot.role == 1 then 1 else 0) + count_ordinary slots

-- Replaces the slot at an index; erases it; inserts before the recovery slot.
unfoldable pub replace_at : ℕ → RevisionSlot → List RevisionSlot → List RevisionSlot
replace_at i slot [] = []
replace_at zero slot (x ∷ xs) = slot ∷ xs
replace_at (suc i) slot (x ∷ xs) = x ∷ replace_at i slot xs

unfoldable pub erase_at : ℕ → List RevisionSlot → List RevisionSlot
erase_at i [] = []
erase_at zero (x ∷ xs) = xs
erase_at (suc i) (x ∷ xs) = x ∷ erase_at i xs

unfoldable pub recovery_index : List RevisionSlot → ℕ
recovery_index [] = 0
recovery_index (slot ∷ slots) =
    let rest = recovery_index slots in if slot.role == 2 then 0 else rest + 1

unfoldable pub insert_invitation : RevisionSlot → List RevisionSlot → List RevisionSlot
insert_invitation new [] = new ∷ []
insert_invitation new (slot ∷ slots) =
    let rest = insert_invitation new slots in
    if slot.role == 2 then new ∷ slot ∷ slots else slot ∷ rest

abbrev Change : Type 0
Change = Outcome SlotError SlotChangeResult

abbrev require_change : Bool → Outcome SlotError (Unit {0})
require_change = require_or invalid_change

abbrev unwrapped : List RevisionSlot → Bytes → SlotChangeResult
unwrapped slots affected = record {
  slots = slots;
  affected_id = affected;
  wrapper_index = 0;
  wrapper_mode = 0;
  remove_active = false;
}

abbrev rewrapped : List RevisionSlot → Bytes → ℕ → SlotChangeResult
rewrapped slots affected index = record {
  slots = slots;
  affected_id = affected;
  wrapper_index = index;
  wrapper_mode = 2;
  remove_active = false;
}

-- `id` and `management_id` are the random ids that no slot has.
unfoldable pub apply_invitation : Actor → Bytes → Bytes → List RevisionSlot → SlotChange → Change
unfolding within valid_permissions valid_name count_ordinary recovery_index insert_invitation
apply_invitation actor id management_id slots change = do
  require_change (
      not actor.must_be_changed
      && bit 2 actor.permissions
      && within change.permissions actor.permissions)
  require_change (valid_permissions change.permissions)
  require_change (valid_name change.name)
  require_or slot_limit (ltb (count_ordinary slots) 7)
  ok (record {
    slots =
        insert_invitation
          (record {
            id = id;
            management_id = management_id;
            permissions = change.permissions;
            role = 1;
            must_be_changed = true;
            name = change.name;
            email = [];
          })
          slots;
    affected_id = id;
    wrapper_index = recovery_index slots;
    wrapper_mode = 1;
    remove_active = false;
  })

unfoldable pub apply_claim : Actor → RevisionSlot → ℕ → List RevisionSlot → SlotChange → Change
unfolding valid_identity replace_at
apply_claim actor active index slots change = do
  require_change (active.role == 1 && actor.must_be_changed)
  require_change (valid_identity change.name change.email)
  ok (
      rewrapped
        (replace_at index
          (record active { must_be_changed = false; name = change.name; email = change.email })
          slots)
        active.id index)

unfoldable pub apply_identity : Actor → RevisionSlot → ℕ → List RevisionSlot → SlotChange → Change
unfolding valid_identity replace_at
apply_identity actor active index slots change = do
  require_change (not actor.must_be_changed && not (active.role == 2))
  require_change (valid_identity change.name change.email)
  ok (
      unwrapped
        (replace_at index (record active { name = change.name; email = change.email }) slots)
        active.id)

unfoldable pub apply_permissions : Actor → List RevisionSlot → SlotChange → Change
unfolding valid_permissions find_slot replace_at
apply_permissions actor slots change = do
  require_change (not actor.must_be_changed && bit 2 actor.permissions && bit 4 actor.permissions)
  elim (find_slot change.target_id slots) [
    | none ↦ err invalid_change
    | some (target, index) ↦ do
      require_change (target.role == 1 && not target.must_be_changed)
      require_change (valid_permissions change.permissions)
      ok (
          unwrapped (replace_at index (record target { permissions = change.permissions }) slots)
            target.id)
  ]

unfoldable pub apply_removal : Actor → RevisionSlot → List RevisionSlot → SlotChange → Change
unfolding find_slot erase_at
apply_removal actor active slots change = do
  require_change (not actor.must_be_changed && bit 4 actor.permissions)
  elim (find_slot change.target_id slots) [
    | none ↦ err invalid_change
    | some (target, index) ↦ do
      require_change (target.role == 1)
      ok (record {
        slots = erase_at index slots;
        affected_id = target.id;
        wrapper_index = index;
        wrapper_mode = 3;
        remove_active = bytes_eq target.id active.id;
      })
  ]

unfoldable pub apply_kind :
    Actor → Bytes → Bytes → RevisionSlot → ℕ → List RevisionSlot → SlotChange → Change
unfolding apply_invitation apply_claim apply_identity apply_permissions apply_removal
apply_kind actor id management_id active index slots change = elim change.kind [
  | SlotChangeKind.change_password ↦ do
    require_change (not actor.must_be_changed)
    ok (rewrapped slots active.id index)
  | SlotChangeKind.add_invitation ↦ apply_invitation actor id management_id slots change
  | SlotChangeKind.claim_invitation ↦ apply_claim actor active index slots change
  | SlotChangeKind.reconcile_identity ↦ apply_identity actor active index slots change
  | SlotChangeKind.update_permissions ↦ apply_permissions actor slots change
  | SlotChangeKind.remove_slot ↦ apply_removal actor active slots change
]

abbrev fits_password : Bytes → Bool
fits_password password = not (is_empty password) && leb (length password) 4096

-- The whole operation. `strong` is the policy's verdict on the new password, `unused` the result
-- of the test for reuse.
unfoldable pub apply_change :
    Bool → Bool → Actor → Bytes → Bytes → List RevisionSlot → SlotChange → Change
unfolding apply_kind find_slot
apply_change strong unused actor id management_id slots change =
    elim (find_slot actor.slot_id slots) [
      | none ↦ err malformed_container
      | some (active, index) ↦ do
        require_change (
            if is_password_change change.kind
            then fits_password change.new_password
            else is_empty change.new_password)
        require_or weak_password (not (is_password_change change.kind) || strong)
        result ← apply_kind actor id management_id active index slots change
        require_or password_in_use (not (is_password_change change.kind) || unused)
        ok result
    ]
