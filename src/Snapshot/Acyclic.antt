-- ===== src/Snapshot/Acyclic.antt =====
-- `validate_ancestor_graph` of src/format/snapshot_revision.cpp: what it means that it returns.
use mathlib.Core.Path.{subst}
use scpefe.Base.{
  Bool, List, Option, Outcome, Outcome-cases, [], ap, arith, err, false, fault, first-ok, get_elem?,
  inl, inr, leb, length, none, ok, refl, require_or-ok, some, suc, sym, true, zero, ℕ, ◌&&◌, ◌+◌,
  ◌<◌, ◌==◌, ◌>>◌, ◌||◌, ◌∙◌, ◌≡◌, ◌≢◌, ◌≤◌,
}
use scpefe.Cbor.Limits.{RevisionError, RevisionLimits, invalid_argument, limit_exceeded}
use scpefe.Snapshot.Ancestors.{
  Visit, check_nodes, set_state, validate_ancestor_graph, visit_all, visit_node, visit_parents,
  zeros,
}
use scpefe.Snapshot.Data.{Node}
use scpefe.Snapshot.Finishes.{IsOrder-set_state, node_done, same_or_not}
use scpefe.Snapshot.Orders.{
  Extends, IsAmong, IsOrder, IsTopological, Visits, extended, parents_of, unchanged,
  visit_parents-Extends,
}

module _ (graph : List Node) where
  abbrev Call : Type 0
  Call = Outcome RevisionError (List ℕ)

  abbrev parents_done : ℕ → Call → Call
  parents_done index m = elim m [
    | ok next ↦ ok (set_state index 2 next)
    | err e ↦ err e
    | fault ↦ fault
  ]

  abbrev visit_fresh : Visit → ℕ → List ℕ → Node → Call
  visit_fresh visit index state node =
      parents_done index
        (visit_parents graph visit (parents_of (some node)) (set_state index 1 state))

  abbrev pub tested : Visit → ℕ → List ℕ → Node → Bool → Bool → Call
  tested visit index state node on_path done = elim on_path [
    | true ↦ err invalid_argument
    | false ↦ elim done [ true ↦ ok state | false ↦ visit_fresh visit index state node ]
  ]

  abbrev pub visit_marked : Visit → ℕ → List ℕ → Node → ℕ → Call
  visit_marked visit index state node mark = tested visit index state node (mark == 1) (mark == 2)

  abbrev pub visit_found : Visit → ℕ → List ℕ → Option ℕ → Option Node → Call
  visit_found visit index state a b = elim a [
    | none ↦ fault
    | some mark ↦ elim b [ none ↦ fault | some node ↦ visit_marked visit index state node mark ]
  ]

  module _ (visit : Visit) (visits : Visits graph visit) (index : ℕ) (state order next : List ℕ)
      (h : IsOrder graph state order) where
    abbrev Result : Type 0
    Result = (e : Extends graph state order next) × IsAmong index e.later

    fresh_visited :
        (mark : ℕ) (node : Node)
        → get_elem? state index ≡ some mark
        → get_elem? graph index ≡ some node
        → mark ≢ 1
        → mark ≢ 2
        → visit_fresh visit index state node ≡ ok next
        → Result
    fresh_visited mark node at_mark at_node new undone done =
        let start = set_state index 1 state in
        let parents = parents_of (some node) in
        elim (Outcome-cases (visit_parents graph visit parents start)) [
          | inl (mid, seen) ↦
              let (e, behind) =
                visit_parents-Extends graph visit visits parents start order mid
                  (IsOrder-set_state graph index mark state order at_mark undone h) seen in
              let (f, among) =
                node_done graph index mark node state order mid at_mark new at_node e behind in
              let end : ok (set_state index 2 mid) ≡ ok next =
                ap (parents_done index) (sym seen) ∙ done in
              let same : set_state index 2 mid ≡ next = cc in
              subst (λ s. (e : Extends graph state order s) × IsAmong index e.later) same (f, among)
          | inr (inl (x, failed)) ↦
              let stop : err x ≡ ok next = ap (parents_done index) (sym failed) ∙ done in absurd cc
          | inr (inr failed) ↦
              let stop : fault ≡ ok next = ap (parents_done index) (sym failed) ∙ done in absurd cc
        ]

    marked_visited :
        (mark : ℕ) (node : Node)
        → get_elem? state index ≡ some mark
        → get_elem? graph index ≡ some node
        → visit_marked visit index state node mark ≡ ok next
        → Result
    marked_visited mark node at_mark at_node done =
        let test = tested visit index state node in
        let mark_is : (m : ℕ) → mark ≡ m → test (m == 1) (m == 2) ≡ ok next =
          λ m same. subst (λ k. test (k == 1) (k == 2) ≡ ok next) same done in
        elim (same_or_not mark 1) [
          | inl one ↦ let stop : err invalid_argument ≡ ok next = mark_is 1 one in absurd cc
          | inr new ↦ elim (same_or_not mark 2) [
            | inl two ↦
                let end : ok state ≡ ok next = mark_is 2 two in
                let same : state ≡ next = cc in
                subst (λ s. (e : Extends graph state order s) × IsAmong index e.later) same
                  (unchanged graph state order h, h.listed index (at_mark ∙ ap some two))
            | inr undone ↦
                let off : (mark == 1) ≡ false = ground arith in
                let not_done : (mark == 2) ≡ false = ground arith in
                fresh_visited mark node at_mark at_node new undone
                  (ap (test false) (sym not_done) ∙ (ap (λ a. test a (mark == 2)) (sym off) ∙ done))
          ]
        ]

    found_visited :
        (a : Option ℕ) (b : Option Node)
        → get_elem? state index ≡ a
        → get_elem? graph index ≡ b
        → visit_found visit index state a b ≡ ok next
        → Result
    found_visited none b at_mark at_node done = absurd cc
    found_visited (some mark) none at_mark at_node done = absurd cc
    found_visited (some mark) (some node) at_mark at_node done =
        marked_visited mark node at_mark at_node done

  visit_node-Visits : (fuel : ℕ) → Visits graph (visit_node graph fuel)
  unfolding visit_node
  visit_node-Visits zero index state order next h done = absurd cc
  visit_node-Visits (suc fuel) index state order next h done =
      found_visited (visit_node graph fuel) (visit_node-Visits fuel) index state order next h
        (get_elem? state index) (get_elem? graph index) refl refl done

  abbrev visited : ℕ → ℕ → Call → Call
  visited index left m = elim m [
    | ok next ↦ visit_all graph (index + 1) left next
    | err e ↦ err e
    | fault ↦ fault
  ]

  -- After the visits, each node that was visited is done.
  visit_all-Extends :
      (left index : ℕ) (state order next : List ℕ)
      → IsOrder graph state order
      → visit_all graph index left state ≡ ok next
      → (e : Extends graph state order next) × ((i : ℕ)
          → index ≤ i
          → i < index + left
          → IsAmong i e.later)
  unfolding visit_all
  visit_all-Extends zero index state order next h done =
      let same : state ≡ next = cc in
      (
        subst (λ s. Extends graph state order s) same (unchanged graph state order h),
        λ i low high. absurd (omega arith),
      )
  visit_all-Extends (suc left) index state order next h done =
      let first = visit_node graph (suc (length graph)) index state in
      elim (Outcome-cases first) [
        | inl (mid, seen) ↦
            let (e, among) = visit_node-Visits (suc (length graph)) index state order mid h seen in
            let rest : visit_all graph (index + 1) left mid ≡ ok next =
              ap (visited index left) (sym seen) ∙ done in
            let (f, others) = visit_all-Extends left (index + 1) mid e.later next e.is_order rest in
            (
              extended graph state order mid next e f,
              λ i low high. elim (same_or_not index i) [
                | inl same ↦ subst (λ j. IsAmong j f.later) same (f.keeps index among)
                | inr other ↦ others i (ground (arith, other)) (omega arith)
              ],
            )
        | inr (inl (x, failed)) ↦
            let stop : err x ≡ ok next = ap (visited index left) (sym failed) ∙ done in absurd cc
        | inr (inr failed) ↦
            let stop : fault ≡ ok next = ap (visited index left) (sym failed) ∙ done in absurd cc
      ]

zeros-ne-two : (n i : ℕ) → get_elem? (zeros n) i ≢ some 2
unfolding zeros
zeros-ne-two zero i h = cc
zeros-ne-two (suc n) zero h = cc
zeros-ne-two (suc n) (suc i) h = zeros-ne-two n i h

-- An accepted graph of ancestors has an order of all its nodes in which no node stands twice, and
-- each stands in front of all its parents that are nodes; so no node is an ancestor of itself.
pub validate_ancestor_graph-IsTopological :
    (graph : List Node) (limits : RevisionLimits)
    → validate_ancestor_graph graph limits ≡ ok tt
    → (order : List ℕ) × IsTopological graph order × ((i : ℕ) → i < length graph → IsAmong i order)
unfolding validate_ancestor_graph
validate_ancestor_graph-IsTopological graph limits h =
    let is_small =
      leb (length graph) limits.max_collection_entries
      && (length graph == 0 || leb 4 limits.max_nesting_depth) in
    let start = zeros (length graph) in
    let verdict : Outcome RevisionError (List ℕ) → Outcome RevisionError (Unit {0}) =
      λ m. elim m [ ok state ↦ ok tt | err e ↦ err e | fault ↦ fault ] in
    let visits = visit_all graph 0 (length graph) start in
    let few =
      require_or-ok limit_exceeded is_small (check_nodes limits [] graph >> verdict visits) tt h in
    let nodes = first-ok (check_nodes limits [] graph) (verdict visits) tt few.1 in
    let none_done : IsOrder graph start [] = record {
      sorted = tt;
      marked = λ i k. absurd k;
      listed = λ i k. absurd (zeros-ne-two (length graph) i k);
    } in
    elim (Outcome-cases visits) [
      | inl (end, seen) ↦
          let (e, all) = visit_all-Extends graph (length graph) 0 start [] end none_done seen in
          (e.later, e.is_order.sorted, λ i k. all i (omega arith) (omega arith))
      | inr (inl (x, failed)) ↦
          let stop : err x ≡ ok tt = ap verdict (sym failed) ∙ nodes.1 in absurd cc
      | inr (inr failed) ↦ let stop : fault ≡ ok tt = ap verdict (sym failed) ∙ nodes.1 in absurd cc
    ]
