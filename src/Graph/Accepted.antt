-- ===== src/Graph/Accepted.antt =====
-- The loop of `parse_slots` in src/format/revision_graph.cpp tests one slot behind the other; here is
-- what the tests say of the whole collection.
use mathlib.Core.List.{append-nil, append_assoc}
use mathlib.Core.Path.{subst}
use scpefe.Base.{
  All, Bool, Bool-cases, Bytes, List, [], ap, arith, bytes_eq, bytes_eq_refl, bytes_eq→eq, false,
  inl, inr, length, ltb, ok, refl, suc, sym, true, zero, ℕ, ◌&&◌, ◌++◌, ◌+◌, ◌==◌, ◌||◌, ◌↔◌, ◌∙◌,
  ◌∷◌, ◌≡◌, ◌≢◌, ◌≤◌, ◌⊎◌,
}
use scpefe.Cbor.Limits.{RevisionLimits, malformed_cbor}
use scpefe.Cbor.Reading.{>>=-eq-ok, Reader, fail_if}
use scpefe.Graph.Authority.{IsSlot}
use scpefe.Graph.Collections.{AreBehind, AreDistinct, IsCollection, id_of, management_id_of}
use scpefe.Graph.Parsed.{fail_if-ok, read_slots-suc}
use scpefe.Graph.Records.{RevisionSlot}
use scpefe.Graph.Slots.{fits, has_id, has_management_id, parse_slots, read_slots}
use scpefe.Cbor.Reader

-- The tests of the loop, from the slot at `i` on.
abbrev pub fits_from : ℕ → ℕ → Bool → List RevisionSlot → List RevisionSlot → Bool
fits_from i count recovery seen [] = true
fits_from i count recovery seen (slot ∷ slots) =
    let rest = fits_from (i + 1) count (recovery || slot.role == 2) (seen ++ (slot ∷ [])) slots in
    fits i count recovery seen slot && rest

abbrev NotIn : List RevisionSlot → RevisionSlot → Type 0
NotIn seen slot =
    (has_id slot.id seen ≡ false) × (has_management_id slot.management_id seen ≡ false)

has_id-append :
    (id : Bytes) (xs ys : List RevisionSlot) → has_id id (xs ++ ys) ≡ (has_id id xs || has_id id ys)
unfolding has_id
has_id-append id [] ys = refl
has_id-append id (x ∷ xs) ys = ground (arith, has_id-append id xs ys)

has_management_id-append :
    (id : Bytes) (xs ys : List RevisionSlot)
    → has_management_id id (xs ++ ys) ≡ (has_management_id id xs || has_management_id id ys)
unfolding has_management_id
has_management_id-append id [] ys = refl
has_management_id-append id (x ∷ xs) ys = ground (arith, has_management_id-append id xs ys)

abbrev Apart : RevisionSlot → RevisionSlot → Type 0
Apart slot other = (other.id ≢ slot.id) × (other.management_id ≢ slot.management_id)

bytes_eq-ne : (x y : Bytes) → bytes_eq x y ≡ false → y ≢ x
bytes_eq-ne x y h e =
    let same : bytes_eq x x ≡ false = subst (λ z. bytes_eq x z ≡ false) e h in
    let own = bytes_eq_refl x in cc

ne-bytes_eq : (x y : Bytes) → y ≢ x → bytes_eq x y ≡ false
ne-bytes_eq x y h = elim (Bool-cases (bytes_eq x y)) [
  | inl same ↦ absurd (h (sym (bytes_eq→eq x y same)))
  | inr other ↦ other
]

NotIn-snoc :
    (seen : List RevisionSlot) (slot other : RevisionSlot)
    → NotIn (seen ++ (slot ∷ [])) other ↔ (NotIn seen other × Apart slot other)
unfolding has_id has_management_id
NotIn-snoc seen slot other =
    let ids = has_id-append other.id seen (slot ∷ []) in
    let managements = has_management_id-append other.management_id seen (slot ∷ []) in
    (
      λ h. (
        ground arith,
        (
          bytes_eq-ne slot.id other.id (ground arith),
          bytes_eq-ne slot.management_id other.management_id (ground arith),
        ),
      ),
      λ (h, apart).
          let a = ne-bytes_eq slot.id other.id apart.0 in
          let b = ne-bytes_eq slot.management_id other.management_id apart.1 in
          (ground arith, ground arith),
    )

-- One test, behind the owner.
fits-behind :
    (i count : ℕ) (seen : List RevisionSlot) (slot : RevisionSlot)
    → 1 ≤ i
    → fits i count false seen slot ≡ true
    → NotIn seen slot × IsSlot slot × ((slot.role ≡ 1) ⊎ ((slot.role ≡ 2) × (i + 1 ≡ count)))
unfolding fits
fits-behind i count seen slot h e = ground arith

behind-fits :
    (i count : ℕ) (seen : List RevisionSlot) (slot : RevisionSlot)
    → 1 ≤ i
    → NotIn seen slot
    → IsSlot slot
    → (slot.role ≡ 1) ⊎ ((slot.role ≡ 2) × (i + 1 ≡ count))
    → fits i count false seen slot ≡ true
unfolding fits
behind-fits i count seen slot h n s r = ground arith

-- And of the owner.
fits-first :
    (count : ℕ) (slot : RevisionSlot)
    → fits 0 count false [] slot ≡ true
    → IsSlot slot × (slot.role ≡ 0)
unfolding fits
fits-first count slot e = ground arith

first-fits :
    (count : ℕ) (slot : RevisionSlot)
    → IsSlot slot
    → slot.role ≡ 0
    → fits 0 count false [] slot ≡ true
unfolding fits has_id has_management_id
first-fits count slot s r = ground arith

record AreTaken (seen slots : List RevisionSlot) : Type 0 where
  behind : AreBehind slots
  each : All IsSlot slots
  new : All (NotIn seen) slots
  ids : AreDistinct id_of slots
  management_ids : AreDistinct management_id_of slots

abbrev All-map :
    (P Q : RevisionSlot → Type 0) (slots : List RevisionSlot)
    → ((slot : RevisionSlot) → P slot → Q slot)
    → All P slots
    → All Q slots
All-map P Q [] f h = tt
All-map P Q (x ∷ xs) f h = (f x h.0, All-map P Q xs f h.1)

fits_from-AreTaken :
    (slots : List RevisionSlot) (i count : ℕ) (seen : List RevisionSlot)
    → 1 ≤ i
    → i + length slots ≡ count
    → fits_from i count false seen slots ≡ true
    → AreTaken seen slots
fits_from-AreTaken [] i count seen h n e = record {
  behind = tt;
  each = tt;
  new = tt;
  ids = tt;
  management_ids = tt;
}
fits_from-AreTaken (slot ∷ slots) i count seen h n e =
    let own : fits i count false seen slot ≡ true = ground arith in
    let (apart, is_slot, role) = fits-behind i count seen slot h own in
    elim role [
      | inl ordinary ↦
          let later : fits_from (i + 1) count false (seen ++ (slot ∷ [])) slots ≡ true =
            let test : (slot.role == 2) ≡ false = ground arith in
            subst (λ b. fits_from (i + 1) count b (seen ++ (slot ∷ [])) slots ≡ true) test
              (ground arith) in
          let taken =
            fits_from-AreTaken slots (i + 1) count (seen ++ (slot ∷ [])) (omega arith) (omega arith)
              later in
          let split =
            All-map (NotIn (seen ++ (slot ∷ []))) _ slots (λ y. (NotIn-snoc seen slot y).0)
              taken.new in
          record {
            behind = inl (ordinary, taken.behind);
            each = (is_slot, taken.each);
            new = (apart, All-map _ (NotIn seen) slots (λ y k. k.0) split);
            ids = (All-map _ _ slots (λ y k. k.1.0) split, taken.ids);
            management_ids = (All-map _ _ slots (λ y k. k.1.1) split, taken.management_ids);
          }
      | inr (recovery, last) ↦
          let gone : slots ≡ [] = length-zero slots (omega arith) in
          subst (λ ys. AreTaken seen (slot ∷ ys)) (sym gone)
            (record {
              behind = inr (recovery, refl);
              each = (is_slot, tt);
              new = (apart, tt);
              ids = (tt, tt);
              management_ids = (tt, tt);
            })
    ]
  where
    length-zero : (ys : List RevisionSlot) → length ys ≡ 0 → ys ≡ []
    length-zero [] q = refl
    length-zero (y ∷ ys) q = absurd (omega arith)

joined :
    (slot : RevisionSlot) (seen ys : List RevisionSlot)
    → All (NotIn seen) ys
    → All (λ other. other.id ≢ slot.id) ys
    → All (λ other. other.management_id ≢ slot.management_id) ys
    → All (NotIn (seen ++ (slot ∷ []))) ys
joined slot seen [] a b c = tt
joined slot seen (y ∷ ys) a b c =
    ((NotIn-snoc seen slot y).1 (a.0, (b.0, c.0)), joined slot seen ys a.1 b.1 c.1)

AreTaken-fits_from :
    (slots : List RevisionSlot) (i count : ℕ) (seen : List RevisionSlot)
    → 1 ≤ i
    → i + length slots ≡ count
    → AreTaken seen slots
    → fits_from i count false seen slots ≡ true
AreTaken-fits_from [] i count seen h n t = refl
AreTaken-fits_from (slot ∷ slots) i count seen h n t = elim t.behind [
  | inl (ordinary, behind) ↦
      let own = behind-fits i count seen slot h t.new.0 t.each.0 (inl ordinary) in
      let test : (slot.role == 2) ≡ false = ground arith in
      let later =
        AreTaken-fits_from slots (i + 1) count (seen ++ (slot ∷ [])) (omega arith) (omega arith)
          (record {
            behind = behind;
            each = t.each.1;
            new = joined slot seen slots t.new.1 t.ids.0 t.management_ids.0;
            ids = t.ids.1;
            management_ids = t.management_ids.1;
          }) in
      rw (own, test) later
  | inr (recovery, last) ↦
      let none_left : length slots ≡ 0 = ap length last in
      let own = behind-fits i count seen slot h t.new.0 t.each.0 (inr (recovery, omega arith)) in
      subst (λ ys. fits_from i count false seen (slot ∷ ys) ≡ true) (sym last) (rw own refl)
]

-- The count and the tests of `parse_slots` on the slots that it reads.
abbrev pub IsAccepted : List RevisionSlot → Type 0
IsAccepted slots =
    (1 ≤ length slots) × (length slots ≤ 9) × (fits_from 0 (length slots) false [] slots ≡ true)

all_new : (slots : List RevisionSlot) → All (NotIn []) slots
unfolding has_id has_management_id
all_new [] = tt
all_new (x ∷ xs) = ((refl, refl), all_new xs)

pub IsAccepted-IsCollection : (slots : List RevisionSlot) → IsAccepted slots → IsCollection slots
IsAccepted-IsCollection [] h = absurd (omega (arith, h.0))
IsAccepted-IsCollection (owner ∷ slots) (some_slot, few, e) =
    let own : fits 0 (length (owner ∷ slots)) false [] owner ≡ true = ground arith in
    let (is_slot, role) = fits-first (length (owner ∷ slots)) owner own in
    let test : (owner.role == 2) ≡ false = ground arith in
    let later : fits_from 1 (length (owner ∷ slots)) false (owner ∷ []) slots ≡ true =
      subst (λ b. fits_from 1 (length (owner ∷ slots)) b (owner ∷ []) slots ≡ true) test
        (ground arith) in
    let taken =
      fits_from-AreTaken slots 1 (length (owner ∷ slots)) (owner ∷ []) (omega arith) (omega arith)
        later in
    let split =
      All-map (NotIn ([] ++ (owner ∷ []))) _ slots (λ y. (NotIn-snoc [] owner y).0) taken.new in
    record {
      each = (is_slot, taken.each);
      layout = (role, taken.behind);
      ids = (All-map _ _ slots (λ y k. k.1.0) split, taken.ids);
      management_ids = (All-map _ _ slots (λ y k. k.1.1) split, taken.management_ids);
      few = few;
    }

pub IsCollection-IsAccepted : (slots : List RevisionSlot) → IsCollection slots → IsAccepted slots
IsCollection-IsAccepted [] h = absurd h.layout
IsCollection-IsAccepted (owner ∷ slots) h =
    let own = first-fits (length (owner ∷ slots)) owner h.each.0 h.layout.0 in
    let test : (owner.role == 2) ≡ false = let role = h.layout.0 in ground arith in
    let later : fits_from 1 (length (owner ∷ slots)) false (owner ∷ []) slots ≡ true =
      AreTaken-fits_from slots 1 (length (owner ∷ slots)) (owner ∷ []) (omega arith) (omega arith)
        (record {
          behind = h.layout.1;
          each = h.each.1;
          new = joined owner [] slots (all_new slots) h.ids.0 h.management_ids.0;
          ids = h.ids.1;
          management_ids = h.management_ids.1;
        }) in
    (omega arith, h.few, rw (own, test) later)

-- The loop appends the slots that it tested.
read_slots-fits_from :
    (limits : RevisionLimits) (left i count : ℕ) (recovery : Bool) (seen : List RevisionSlot)
    (r s : Reader) {slots : List RevisionSlot}
    → read_slots limits left i count recovery seen r ≡ ok (slots, s)
    → (new : List RevisionSlot) × (slots ≡ seen ++ new)
      × (length new ≡ left)
      × (fits_from i count recovery seen new ≡ true)
unfolding read_slots
read_slots-fits_from limits zero i count recovery seen r s {slots} e =
    let same : slots ≡ seen = ground arith in ([], same ∙ sym (append-nil seen), refl, refl)
read_slots-fits_from limits (suc left) i count recovery seen r s e =
    let (slot, t, good, rest) = read_slots-suc limits left i count recovery seen r e in
    let (new, built, n, fine) =
      read_slots-fits_from limits left (i + 1) count _ (seen ++ (slot ∷ [])) t s rest in
    (slot ∷ new, built ∙ append_assoc seen (slot ∷ []) new, ap suc n, rw (good, fine) refl)

-- The slots that the decoder returns passed all its tests together, so that they are a collection:
-- the owner in front, behind it ordinary slots and at the end at most one recovery slot, no two
-- with the same id or management id, each with the rights and the identity that its role wants, and
-- no more than nine.
pub parse_slots-IsCollection :
    (limits : RevisionLimits) (r s : Reader) {slots : List RevisionSlot}
    → parse_slots limits r ≡ ok (slots, s)
    → IsAccepted slots × IsCollection slots
unfolding parse_slots
parse_slots-IsCollection limits r s {slots} e =
    let (count, t, e1, e2) = >>=-eq-ok (Reader.array limits 2) _ r e in
    let bad = ltb count 1 || ltb 9 count in
    let (u, t', e3, e4) = >>=-eq-ok (fail_if bad malformed_cbor) _ t e2 in
    let within = (fail_if-ok bad malformed_cbor t e3).0 in
    let (new, built, n, fine) = read_slots-fits_from limits count 0 count false [] t' s e4 in
    let sized : length slots ≡ count = ap length built ∙ n in
    let accepted : IsAccepted slots = (
      ground arith,
      ground arith,
      subst (λ k. fits_from 0 k false [] slots ≡ true) (sym sized)
          (subst (λ xs. fits_from 0 count false [] xs ≡ true) (sym built) fine),
    ) in
    (accepted, IsAccepted-IsCollection slots accepted)
