-- ===== src/Graph/Collections.antt =====
-- The rules of `parse_slots` in src/format/revision_graph.cpp on all slots of a collection together.
use mathlib.Core.Path.{subst}
use scpefe.Base.{
  All, Bool-cases, Bytes, List, [], ap, arith, false, get_elem?, inl, inr, length, refl, some, suc,
  sym, true, zero, ℕ, ◌+◌, ◌==◌, ◌∙◌, ◌∷◌, ◌≡◌, ◌≢◌, ◌≤◌, ◌⊎◌,
}
use scpefe.Graph.Authority.{
  All-erase_at, All-get_elem?, All-insert_invitation, All-replace_at, IsSlot,
}
use scpefe.Graph.Changes.{count_ordinary, erase_at, insert_invitation, replace_at}
use scpefe.Graph.Records.{RevisionSlot}

-- Behind the owner: ordinary slots, and the recovery slot as the last one if there is one.
abbrev pub AreBehind : List RevisionSlot → Type 0
AreBehind [] = Unit {0}
AreBehind (slot ∷ slots) = ((slot.role ≡ 1) × AreBehind slots) ⊎ ((slot.role ≡ 2) × (slots ≡ []))

-- The owner stands in front.
abbrev pub IsLaidOut : List RevisionSlot → Type 0
IsLaidOut [] = ⊥
IsLaidOut (owner ∷ slots) = (owner.role ≡ 0) × AreBehind slots

-- No two slots have the same bytes in the field.
abbrev pub AreDistinct : (RevisionSlot → Bytes) → List RevisionSlot → Type 0
AreDistinct field [] = Unit {0}
AreDistinct field (slot ∷ slots) =
    All (λ other. field other ≢ field slot) slots × AreDistinct field slots

abbrev pub id_of : RevisionSlot → Bytes
id_of slot = slot.id

abbrev pub management_id_of : RevisionSlot → Bytes
management_id_of slot = slot.management_id

pub record IsCollection (slots : List RevisionSlot) : Type 0 where
  pub each : All IsSlot slots
  pub layout : IsLaidOut slots
  pub ids : AreDistinct id_of slots
  pub management_ids : AreDistinct management_id_of slots
  pub few : length slots ≤ 9

-- A slot that is rewritten in place keeps its role.
AreBehind-replace_at :
    (i : ℕ) (slots : List RevisionSlot) (new : RevisionSlot) {found : RevisionSlot}
    → get_elem? slots i ≡ some found
    → new.role ≡ found.role
    → AreBehind slots
    → AreBehind (replace_at i new slots)
unfolding replace_at
AreBehind-replace_at i [] new e h b = b
AreBehind-replace_at zero (x ∷ xs) new e h (inl (ordinary, rest)) = inl (ground arith, rest)
AreBehind-replace_at zero (x ∷ xs) new e h (inr (recovery, last)) = inr (ground arith, last)
AreBehind-replace_at (suc i) (x ∷ xs) new e h (inl (ordinary, rest)) =
    inl (ordinary, AreBehind-replace_at i xs new e h rest)
AreBehind-replace_at (suc i) (x ∷ xs) new {found} e h (inr (recovery, last)) =
    let gone = subst (λ ys. get_elem? ys i ≡ some found) last e in absurd cc

pub IsLaidOut-replace_at :
    (i : ℕ) (slots : List RevisionSlot) (new : RevisionSlot) {found : RevisionSlot}
    → get_elem? slots i ≡ some found
    → new.role ≡ found.role
    → IsLaidOut slots
    → IsLaidOut (replace_at i new slots)
unfolding replace_at
IsLaidOut-replace_at i [] new e h b = b
IsLaidOut-replace_at zero (x ∷ xs) new e h (owner, rest) = (ground arith, rest)
IsLaidOut-replace_at (suc i) (x ∷ xs) new e h (owner, rest) =
    (owner, AreBehind-replace_at i xs new e h rest)

AreBehind-erase_at :
    (i : ℕ) (slots : List RevisionSlot) {found : RevisionSlot}
    → get_elem? slots i ≡ some found
    → found.role ≡ 1
    → AreBehind slots
    → AreBehind (erase_at i slots)
unfolding erase_at
AreBehind-erase_at i [] e h b = b
AreBehind-erase_at zero (x ∷ xs) e h (inl (ordinary, rest)) = rest
AreBehind-erase_at zero (x ∷ xs) e h (inr (recovery, last)) = absurd (ground arith)
AreBehind-erase_at (suc i) (x ∷ xs) e h (inl (ordinary, rest)) =
    inl (ordinary, AreBehind-erase_at i xs e h rest)
AreBehind-erase_at (suc i) (x ∷ xs) {found} e h (inr (recovery, last)) =
    let gone = subst (λ ys. get_elem? ys i ≡ some found) last e in absurd cc

pub IsLaidOut-erase_at :
    (i : ℕ) (slots : List RevisionSlot) {found : RevisionSlot}
    → get_elem? slots i ≡ some found
    → found.role ≡ 1
    → IsLaidOut slots
    → IsLaidOut (erase_at i slots)
unfolding erase_at
IsLaidOut-erase_at i [] e h b = b
IsLaidOut-erase_at zero (x ∷ xs) e h (owner, rest) = absurd (ground arith)
IsLaidOut-erase_at (suc i) (x ∷ xs) e h (owner, rest) = (owner, AreBehind-erase_at i xs e h rest)

AreBehind-insert_invitation :
    (new : RevisionSlot) (slots : List RevisionSlot)
    → new.role ≡ 1
    → AreBehind slots
    → AreBehind (insert_invitation new slots)
unfolding insert_invitation
AreBehind-insert_invitation new [] h b = inl (h, tt)
AreBehind-insert_invitation new (x ∷ xs) h (inl (ordinary, rest)) =
    let test : (x.role == 2) ≡ false = ground arith in
    rw test (inl (ordinary, AreBehind-insert_invitation new xs h rest))
AreBehind-insert_invitation new (x ∷ xs) h (inr (recovery, last)) =
    let test : (x.role == 2) ≡ true = ground arith in rw test (inl (h, inr (recovery, last)))

pub IsLaidOut-insert_invitation :
    (new : RevisionSlot) (slots : List RevisionSlot)
    → new.role ≡ 1
    → IsLaidOut slots
    → IsLaidOut (insert_invitation new slots)
unfolding insert_invitation
IsLaidOut-insert_invitation new [] h b = absurd b
IsLaidOut-insert_invitation new (x ∷ xs) h (owner, rest) =
    let test : (x.role == 2) ≡ false = ground arith in
    rw test (owner, AreBehind-insert_invitation new xs h rest)

module _ (field : RevisionSlot → Bytes) where
  pub AreDistinct-replace_at :
      (i : ℕ) (slots : List RevisionSlot) (new : RevisionSlot) {found : RevisionSlot}
      → get_elem? slots i ≡ some found
      → field new ≡ field found
      → AreDistinct field slots
      → AreDistinct field (replace_at i new slots)
  unfolding replace_at
  AreDistinct-replace_at i [] new e h d = tt
  AreDistinct-replace_at zero (x ∷ xs) new {found} e h (others, d) =
      let same : field new ≡ field x = let there : found ≡ x = cc in h ∙ ap field there in
      (subst (λ b. All (λ other. field other ≢ b) xs) (sym same) others, d)
  AreDistinct-replace_at (suc i) (x ∷ xs) new {found} e h (others, d) =
      let apart : field new ≢ field x =
        rw h (All-get_elem? (λ other. field other ≢ field x) xs i others e) in
      (
        All-replace_at (λ other. field other ≢ field x) i new xs others apart,
        AreDistinct-replace_at i xs new e h d,
      )

  pub AreDistinct-erase_at :
      (i : ℕ) (slots : List RevisionSlot)
      → AreDistinct field slots
      → AreDistinct field (erase_at i slots)
  unfolding erase_at
  AreDistinct-erase_at i [] d = tt
  AreDistinct-erase_at zero (x ∷ xs) (others, d) = d
  AreDistinct-erase_at (suc i) (x ∷ xs) (others, d) =
      (All-erase_at (λ other. field other ≢ field x) i xs others, AreDistinct-erase_at i xs d)

  pub AreDistinct-insert_invitation :
      (new : RevisionSlot) (slots : List RevisionSlot)
      → All (λ other. field other ≢ field new) slots
      → AreDistinct field slots
      → AreDistinct field (insert_invitation new slots)
  unfolding insert_invitation
  AreDistinct-insert_invitation new [] fresh d = (tt, tt)
  AreDistinct-insert_invitation new (x ∷ xs) (apart, fresh) (others, d) =
      elim (Bool-cases (x.role == 2)) [
        | inl recovery ↦ rw recovery ((apart, fresh), (others, d))
        | inr other ↦ rw other (
          All-insert_invitation (λ other. field other ≢ field x) new xs others (λ e. apart (sym e)),
          AreDistinct-insert_invitation new xs fresh d,
        )
      ]

-- At most the owner and the recovery slot are not ordinary.
length-AreBehind :
    (slots : List RevisionSlot) → AreBehind slots → length slots ≤ 1 + count_ordinary slots
unfolding count_ordinary
length-AreBehind [] b = omega arith
length-AreBehind (x ∷ xs) (inl (ordinary, rest)) =
    let test : (x.role == 1) ≡ true = ground arith in
    let few = length-AreBehind xs rest in rw test (omega arith)
length-AreBehind (x ∷ xs) (inr (recovery, last)) =
    let none_left : length xs ≡ 0 = ap length last in
    let test : (x.role == 1) ≡ false = ground arith in rw test (omega arith)

pub length-IsLaidOut :
    (slots : List RevisionSlot) → IsLaidOut slots → length slots ≤ 2 + count_ordinary slots
unfolding count_ordinary
length-IsLaidOut [] b = absurd b
length-IsLaidOut (x ∷ xs) (owner, rest) =
    let test : (x.role == 1) ≡ false = ground arith in
    let few = length-AreBehind xs rest in rw test (omega arith)

pub length-replace_at :
    (i : ℕ) (new : RevisionSlot) (slots : List RevisionSlot)
    → length (replace_at i new slots) ≡ length slots
unfolding replace_at
length-replace_at i new [] = refl
length-replace_at zero new (x ∷ xs) = refl
length-replace_at (suc i) new (x ∷ xs) = ap suc (length-replace_at i new xs)

pub length-erase_at : (i : ℕ) (slots : List RevisionSlot) → length (erase_at i slots) ≤ length slots
unfolding erase_at
length-erase_at i [] = omega arith
length-erase_at zero (x ∷ xs) = omega arith
length-erase_at (suc i) (x ∷ xs) = let rest = length-erase_at i xs in omega arith

pub length-insert_invitation :
    (new : RevisionSlot) (slots : List RevisionSlot)
    → length (insert_invitation new slots) ≡ suc (length slots)
unfolding insert_invitation
length-insert_invitation new [] = refl
length-insert_invitation new (x ∷ xs) = elim (Bool-cases (x.role == 2)) [
  | inl recovery ↦ rw recovery refl
  | inr other ↦ rw other (ap suc (length-insert_invitation new xs))
]
