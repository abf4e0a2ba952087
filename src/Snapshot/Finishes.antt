-- ===== src/Snapshot/Finishes.antt =====
-- The visit of one node in `validate_ancestor_graph` of src/format/snapshot_revision.cpp.
use mathlib.Core.Path.{subst}
use scpefe.Base.{
  Bool-cases, List, [], ap, arith, get_elem?, inl, inr, refl, some, suc, sym, zero, ℕ, ◌==◌, ◌∙◌,
  ◌∷◌, ◌≡◌, ◌≢◌, ◌⊎◌,
}
use scpefe.Snapshot.Ancestors.{set_state}
use scpefe.Snapshot.Data.{Node}
use scpefe.Snapshot.Orders.{AreAmong, Extends, IsAmong, IsOrder, parents_of}

set_state-same :
    (i v x : ℕ) (xs : List ℕ) → get_elem? xs i ≡ some x → get_elem? (set_state i v xs) i ≡ some v
unfolding set_state
set_state-same i v x [] h = cc
set_state-same zero v x (y ∷ ys) h = refl
set_state-same (suc i) v x (y ∷ ys) h = set_state-same i v x ys h

set_state-other :
    (i j v : ℕ) (xs : List ℕ) → i ≢ j → get_elem? (set_state i v xs) j ≡ get_elem? xs j
unfolding set_state
set_state-other i j v [] h = refl
set_state-other zero zero v (y ∷ ys) h = absurd (h refl)
set_state-other zero (suc j) v (y ∷ ys) h = refl
set_state-other (suc i) zero v (y ∷ ys) h = refl
set_state-other (suc i) (suc j) v (y ∷ ys) h = set_state-other i j v ys (λ e. h (ap suc e))

pub same_or_not : (i j : ℕ) → (i ≡ j) ⊎ (i ≢ j)
same_or_not i j = elim (Bool-cases (i == j)) [
  | inl same ↦ inl (ground arith)
  | inr other ↦ inr (λ e. ground arith)
]

module _ (graph : List Node) where
  -- The mark of a node that is not done may change to 1, and the order stays.
  pub IsOrder-set_state :
      (index mark : ℕ) (state order : List ℕ)
      → get_elem? state index ≡ some mark
      → mark ≢ 2
      → IsOrder graph state order
      → IsOrder graph (set_state index 1 state) order
  IsOrder-set_state index mark state order at_mark undone h = record {
    sorted = h.sorted;
    marked = λ i k. elim (same_or_not index i) [
      | inl same ↦ let two = h.marked i k in absurd (undone cc)
      | inr other ↦ set_state-other index i 1 state other ∙ h.marked i k
    ];
    listed = λ i k. elim (same_or_not index i) [
      | inl same ↦ let one = set_state-same index 1 mark state at_mark in absurd cc
      | inr other ↦ h.listed i (sym (set_state-other index i 1 state other) ∙ k)
    ];
  }

  -- A node whose parents are done is done.
  pub node_done :
      (index mark : ℕ) (node : Node) (state order mid : List ℕ)
      → get_elem? state index ≡ some mark
      → mark ≢ 1
      → get_elem? graph index ≡ some node
      → (e : Extends graph (set_state index 1 state) order mid)
      → AreAmong graph (parents_of (some node)) e.later
      → (f : Extends graph state order (set_state index 2 mid)) × IsAmong index f.later
  node_done index mark node state order mid at_mark new at_node e behind =
      let undone : get_elem? mid index ≡ some 1 =
        e.path index (set_state-same index 1 mark state at_mark) in
      let alone : ¬ IsAmong index e.later = λ k. let two = e.is_order.marked index k in cc in
      let own : AreAmong graph (parents_of (get_elem? graph index)) e.later =
        subst (λ o. AreAmong graph (parents_of o) e.later) (sym at_node) behind in
      (
        record {
          later = index ∷ e.later;
          is_order = record {
            sorted = (alone, own, e.is_order.sorted);
            marked = λ i k. elim (same_or_not index i) [
              | inl same ↦
                  subst (λ j. get_elem? (set_state index 2 mid) j ≡ some 2) same
                    (set_state-same index 2 1 mid undone)
              | inr other ↦ elim k [
                | inl same ↦ absurd (other (sym same))
                | inr among ↦ set_state-other index i 2 mid other ∙ e.is_order.marked i among
              ]
            ];
            listed = λ i k. elim (same_or_not index i) [
              | inl same ↦ inl (sym same)
              | inr other ↦
                  inr (e.is_order.listed i (sym (set_state-other index i 2 mid other) ∙ k))
            ];
          };
          keeps = λ i k. inr (e.keeps i k);
          path = λ i k. elim (same_or_not index i) [
            | inl same ↦ absurd (new cc)
            | inr other ↦
                set_state-other index i 2 mid other
                ∙ e.path i (set_state-other index i 1 state other ∙ k)
          ];
        },
        inl refl,
      )
