-- ===== src/Snapshot/Orders.antt =====
-- What `visit` in `validate_ancestor_graph` of src/format/snapshot_revision.cpp does to its states:
-- the nodes that are done, the last in front, stand before their parents.
use mathlib.Core.Path.{subst}
use scpefe.Base.{
  All, Bytes, List, Option, Option-cases, Outcome, Outcome-cases, [], ap, err, fault, get_elem?,
  inl, inr, none, ok, some, sym, ℕ, ◌∙◌, ◌∷◌, ◌≡◌, ◌⊎◌,
}
use scpefe.Cbor.Limits.{RevisionError}
use scpefe.Snapshot.Ancestors.{Visit, find_node, visit_parents}
use scpefe.Snapshot.Data.{Node, ids, parent_count}

abbrev pub IsAmong : ℕ → List ℕ → Type 0
IsAmong i [] = ⊥
IsAmong i (x ∷ xs) = (i ≡ x) ⊎ IsAmong i xs

abbrev pub parents_of : Option Node → List Bytes
parents_of none = []
parents_of (some node) = ids (parent_count node.parent_revision_ids) node.parent_revision_ids

module _ (graph : List Node) where
  -- The parents that are nodes stand in the list.
  abbrev pub AreAmong : List Bytes → List ℕ → Type 0
  AreAmong parents order =
      All (λ id. (j : ℕ) → find_node id graph ≡ some j → IsAmong j order) parents

  -- No index stands there twice, and each has its parents behind it.
  abbrev pub IsTopological : List ℕ → Type 0
  IsTopological [] = Unit {0}
  IsTopological (i ∷ rest) =
      (¬ IsAmong i rest) × AreAmong (parents_of (get_elem? graph i)) rest × IsTopological rest

  -- The order of the nodes that are done.
  pub record IsOrder (state order : List ℕ) : Type 0 where
    pub sorted : IsTopological order
    pub marked : (i : ℕ) → IsAmong i order → get_elem? state i ≡ some 2
    pub listed : (i : ℕ) → get_elem? state i ≡ some 2 → IsAmong i order

  -- More are done, and what is on the path stays on it.
  pub record Extends (state order next : List ℕ) : Type 0 where
    pub later : List ℕ
    pub is_order : IsOrder next later
    pub keeps : (i : ℕ) → IsAmong i order → IsAmong i later
    pub path : (i : ℕ) → get_elem? state i ≡ some 1 → get_elem? next i ≡ some 1

  abbrev pub Visits : Visit → Type 0
  Visits visit =
      (index : ℕ) (state order next : List ℕ)
      → IsOrder state order
      → visit index state ≡ ok next
      → (e : Extends state order next) × IsAmong index e.later

  abbrev pub unchanged : (state order : List ℕ) → IsOrder state order → Extends state order state
  unchanged state order h = record {
    later = order;
    is_order = h;
    keeps = λ i k. k;
    path = λ i k. k;
  }

  abbrev pub extended :
      (state order mid next : List ℕ) (e : Extends state order mid)
      → Extends mid e.later next
      → Extends state order next
  extended state order mid next e f = record {
    later = f.later;
    is_order = f.is_order;
    keeps = λ i k. f.keeps i (e.keeps i k);
    path = λ i k. f.path i (e.path i k);
  }

  module _ (visit : Visit) (visits : Visits visit) where
    abbrev parent_visited :
        List Bytes → List ℕ → Outcome RevisionError (List ℕ) → Outcome RevisionError (List ℕ)
    parent_visited rest state m = elim m [
      | ok next ↦ visit_parents graph visit rest next
      | err e ↦ err e
      | fault ↦ fault
    ]

    abbrev AfterParents : List Bytes → (state order next : List ℕ) → Type 0
    AfterParents parents state order next =
        (e : Extends state order next) × AreAmong parents e.later

    abbrev parent_found : List Bytes → List ℕ → Option ℕ → Outcome RevisionError (List ℕ)
    parent_found rest state o = elim o [
      | none ↦ visit_parents graph visit rest state
      | some i ↦ parent_visited rest state (visit i state)
    ]

    -- The loop over the parents.
    pub visit_parents-Extends :
        (parents : List Bytes) (state order next : List ℕ)
        → IsOrder state order
        → visit_parents graph visit parents state ≡ ok next
        → AfterParents parents state order next
    unfolding visit_parents
    visit_parents-Extends [] state order next h done = (
      let same : state ≡ next = cc in
          subst (λ s. Extends state order s) same (unchanged state order h),
      tt,
    )
    visit_parents-Extends (id ∷ rest) state order next h done =
        elim (Option-cases (find_node id graph)) [
          | inl unknown ↦
              let onwards : visit_parents graph visit rest state ≡ ok next =
                ap (parent_found rest state) (sym unknown) ∙ done in
              let (f, behind) = visit_parents-Extends rest state order next h onwards in
              (f, (λ j k. absurd cc, behind))
          | inr (i, known) ↦
              let visited : parent_visited rest state (visit i state) ≡ ok next =
                ap (parent_found rest state) (sym known) ∙ done in
              elim (Outcome-cases (visit i state)) [
                | inl (mid, seen) ↦
                    let (f, among) = visits i state order mid h seen in
                    let onwards : visit_parents graph visit rest mid ≡ ok next =
                      ap (parent_visited rest state) (sym seen) ∙ visited in
                    let (g, behind) =
                      visit_parents-Extends rest mid f.later next f.is_order onwards in
                    (
                      extended state order mid next f g,
                      (
                        λ j k.
                            let same : i ≡ j = cc in
                            subst (λ x. IsAmong x g.later) same (g.keeps i among),
                        behind,
                      ),
                    )
                | inr (inl (x, failed)) ↦
                    let stop : err x ≡ ok next =
                      ap (parent_visited rest state) (sym failed) ∙ visited in
                    absurd cc
                | inr (inr failed) ↦
                    let stop : fault ≡ ok next =
                      ap (parent_visited rest state) (sym failed) ∙ visited in
                    absurd cc
              ]
        ]
