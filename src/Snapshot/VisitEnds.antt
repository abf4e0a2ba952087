-- ===== src/Snapshot/VisitEnds.antt =====
-- The visits in `validate_ancestor_graph` of src/format/snapshot_revision.cpp end, and stay within
-- the graph.
use mathlib.Core.Path.{subst}
use scpefe.Base.{
  Bool-cases, Bytes, List, Option, Option-cases, Outcome, [], ap, arith, err, false, fault,
  get_elem?, if◌then◌else◌, inl, inr, length, none, ok, refl, some, suc, sym, zero, ℕ, ◌++◌, ◌+◌,
  ◌<◌, ◌==◌, ◌||◌, ◌∙◌, ◌∷◌, ◌≡◌, ◌≢◌, ◌≤◌,
}
use scpefe.Cbor.Limits.{RevisionError, RevisionLimits}
use scpefe.Snapshot.Acyclic.{tested, visit_found, visit_marked}
use scpefe.Snapshot.Ancestors.{
  Visit, check_nodes, find_node, set_state, validate_ancestor_graph, visit_all, visit_node,
  visit_parents, zeros,
}
use scpefe.Snapshot.Data.{Node}
use scpefe.Snapshot.Finishes.{same_or_not}
use scpefe.Snapshot.Orders.{parents_of}

-- How many nodes are neither on the path nor done.
abbrev pub fresh : List ℕ → ℕ
fresh [] = 0
fresh (x ∷ xs) = (if x == 1 || x == 2 then 0 else 1) + fresh xs

length-set_state : (i v : ℕ) (xs : List ℕ) → length (set_state i v xs) ≡ length xs
unfolding set_state
length-set_state i v [] = refl
length-set_state zero v (x ∷ xs) = refl
length-set_state (suc i) v (x ∷ xs) = ap suc (length-set_state i v xs)

fresh-on_path :
    (i mark : ℕ) (xs : List ℕ)
    → get_elem? xs i ≡ some mark
    → mark ≢ 1
    → mark ≢ 2
    → fresh xs ≡ suc (fresh (set_state i 1 xs))
unfolding set_state
fresh-on_path i mark [] h new undone = absurd cc
fresh-on_path zero mark (x ∷ xs) h new undone =
    let same : x ≡ mark = cc in
    let test : (x == 1 || x == 2) ≡ false = ground (arith, new, undone, same) in
    rw test (omega arith)
fresh-on_path (suc i) mark (x ∷ xs) h new undone =
    let rest = fresh-on_path i mark xs h new undone in omega arith

fresh-done : (i : ℕ) (xs : List ℕ) → fresh (set_state i 2 xs) ≤ fresh xs
unfolding set_state
fresh-done i [] = omega arith
fresh-done zero (x ∷ xs) = omega arith
fresh-done (suc i) (x ∷ xs) = let rest = fresh-done i xs in omega arith

fresh-length : (xs : List ℕ) → fresh xs ≤ length xs
fresh-length [] = omega arith
fresh-length (x ∷ xs) =
    let rest = fresh-length xs in
    elim (Bool-cases (x == 1 || x == 2)) [
      | inl seen ↦ rw seen (omega arith)
      | inr new ↦ rw new (omega arith)
    ]

find_node-lt :
    (id : Bytes) (graph : List Node) (i : ℕ) → find_node id graph ≡ some i → i < length graph
unfolding find_node
find_node-lt id [] i h = absurd cc
find_node-lt id (node ∷ nodes) i h = elim (Option-cases (find_node id nodes)) [
  | inl nowhere ↦ ground arith
  | inr (j, there) ↦ let rest = find_node-lt id nodes j there in ground (arith, rest)
]

element_there :
    {A : Type 0} (xs : List A) (i : ℕ) → i < length xs → (x : A) × (get_elem? xs i ≡ some x)
element_there [] i h = absurd (omega arith)
element_there (x ∷ xs) zero h = (x, refl)
element_there (x ∷ xs) (suc i) h = element_there xs i (omega arith)

abbrev Call : Type 0
Call = Outcome RevisionError (List ℕ)

-- No fault, and as many states, of which no more are fresh.
abbrev Ends : List ℕ → Call → Type 0
Ends state m =
    (m ≢ fault)
    × ((next : List ℕ) → m ≡ ok next → (length next ≡ length state) × (fresh next ≤ fresh state))

ended :
    (state next : List ℕ)
    → length next ≡ length state
    → fresh next ≤ fresh state
    → Ends state (ok next)
ended state next h k = (
  (λ e. cc),
  λ other e.
      let same : next ≡ other = cc in
      subst (λ s. (length s ≡ length state) × (fresh s ≤ fresh state)) same (h, k),
)

Ends-then :
    (state : List ℕ) (m : Call) (k : List ℕ → Call)
    → Ends state m
    → ((mid : List ℕ) → length mid ≡ length state → fresh mid ≤ fresh state → Ends state (k mid))
    → Ends state (elim m [ ok next ↦ k next | err e ↦ err e | fault ↦ fault ])
Ends-then state (ok mid) k h g = let (l, f) = h.1 mid refl in g mid l f
Ends-then state (err x) k h g = ((λ e. cc), λ next e. absurd cc)
Ends-then state fault k h g = absurd (h.0 refl)

Ends-shift :
    (state mid : List ℕ) (m : Call)
    → length mid ≡ length state
    → fresh mid ≤ fresh state
    → Ends mid m
    → Ends state m
Ends-shift state mid m h k e =
    (e.0, λ next q. let (l, f) = e.1 next q in (omega arith, omega arith))

module _ (graph : List Node) where
  abbrev HasFuel : ℕ → Visit → Type 0
  HasFuel fuel visit =
      (index : ℕ) (state : List ℕ)
      → index < length state
      → length state ≡ length graph
      → fresh state < fuel
      → Ends state (visit index state)

  visit_parents-Ends :
      (fuel : ℕ) (visit : Visit)
      → HasFuel fuel visit
      → (parents : List Bytes) (state : List ℕ) → length state ≡ length graph
      → fresh state < fuel
      → Ends state (visit_parents graph visit parents state)
  unfolding visit_parents
  visit_parents-Ends fuel visit h [] state size few = ended state state refl (omega arith)
  visit_parents-Ends fuel visit h (id ∷ rest) state size few =
      let step : Option ℕ → Call = λ o. elim o [
        | none ↦ visit_parents graph visit rest state
        | some i ↦ elim (visit i state) [
          | ok next ↦ visit_parents graph visit rest next
          | err e ↦ err e
          | fault ↦ fault
        ]
      ] in
      elim (Option-cases (find_node id graph)) [
        | inl unknown ↦
            subst (λ o. Ends state (step o)) (sym unknown)
              (visit_parents-Ends fuel visit h rest state size few)
        | inr (i, known) ↦
            let there = find_node-lt id graph i known in
            subst (λ o. Ends state (step o)) (sym known)
              (Ends-then state (visit i state) (visit_parents graph visit rest)
                (h i state (omega arith) size few)
                λ mid l f.
                  Ends-shift state mid (visit_parents graph visit rest mid) l f
                    (visit_parents-Ends fuel visit h rest mid (omega arith) (omega arith)))
      ]

  -- A node on the path, a node that is done, and a fresh one.
  marked-Ends :
      (fuel : ℕ) (visit : Visit)
      → HasFuel fuel visit
      → (index mark : ℕ) (state : List ℕ) (node : Node) → get_elem? state index ≡ some mark
      → length state ≡ length graph
      → fresh state < suc fuel
      → Ends state (visit_marked graph visit index state node mark)
  marked-Ends fuel visit h index mark state node at_mark size few =
      let start = set_state index 1 state in
      let sized : length start ≡ length state = length-set_state index 1 state in
      let test = tested graph visit index state node in
      let is_mark : (m : ℕ)
          → mark ≡ m
          → Ends state (test (m == 1) (m == 2))
          → Ends state (test (mark == 1) (mark == 2)) =
        λ m same. subst (λ k. Ends state (test (k == 1) (k == 2))) (sym same) in
      elim (same_or_not mark 1) [
        | inl one ↦ is_mark 1 one ((λ e. cc), λ next e. absurd cc)
        | inr new ↦
            let not_one : (mark == 1) ≡ false = ground arith in
            elim (same_or_not mark 2) [
              | inl two ↦ is_mark 2 two (ended state state refl (omega arith))
              | inr undone ↦
                  let not_two : (mark == 2) ≡ false = ground arith in
                  let less = fresh-on_path index mark state at_mark new undone in
                  subst (λ a. Ends state (test a (mark == 2))) (sym not_one)
                    (subst (λ b. Ends state (test false b)) (sym not_two)
                      (Ends-then state (visit_parents graph visit (parents_of (some node)) start)
                        (λ next. ok (set_state index 2 next))
                        (Ends-shift state start
                          (visit_parents graph visit (parents_of (some node)) start) sized
                          (omega arith)
                          (visit_parents-Ends fuel visit h (parents_of (some node)) start
                            (omega arith) (omega arith)))
                        λ mid l f.
                          ended state (set_state index 2 mid) (length-set_state index 2 mid ∙ l)
                            (let done = fresh-done index mid in omega arith)))
            ]
      ]

  visit_node-HasFuel : (fuel : ℕ) → HasFuel fuel (visit_node graph fuel)
  unfolding visit_node
  visit_node-HasFuel zero index state there size few = absurd (omega arith)
  visit_node-HasFuel (suc fuel) index state there size few =
      let visit = visit_node graph fuel in
      let (mark, at_mark) = element_there state index there in
      let (node, at_node) = element_there graph index (omega arith) in
      subst (λ a. Ends state (visit_found graph visit index state a (get_elem? graph index)))
        (sym at_mark)
        (subst (λ b. Ends state (visit_found graph visit index state (some mark) b)) (sym at_node)
          (marked-Ends fuel visit (visit_node-HasFuel fuel) index mark state node at_mark size few))

  visit_all-Ends :
      (index left : ℕ) (state : List ℕ)
      → index + left ≤ length graph
      → length state ≡ length graph
      → Ends state (visit_all graph index left state)
  unfolding visit_all
  visit_all-Ends index zero state within size = ended state state refl (omega arith)
  visit_all-Ends index (suc left) state within size =
      let few = fresh-length state in
      Ends-then state (visit_node graph (suc (length graph)) index state)
        (visit_all graph (index + 1) left)
        (visit_node-HasFuel (suc (length graph)) index state (omega arith) size (omega arith))
        λ mid l f.
          Ends-shift state mid (visit_all graph (index + 1) left mid) l f
            (visit_all-Ends (index + 1) left mid (omega arith) (omega arith))

length-zeros : (n : ℕ) → length (zeros n) ≡ n
unfolding zeros
length-zeros zero = refl
length-zeros (suc n) = ap suc (length-zeros n)

check_nodes-ne-fault :
    (limits : RevisionLimits) (seen nodes : List Node) → check_nodes limits seen nodes ≢ fault
unfolding check_nodes
check_nodes-ne-fault limits seen [] e = cc
check_nodes-ne-fault limits seen (node ∷ nodes) e =
    ground (arith, check_nodes-ne-fault limits (seen ++ (node ∷ [])) nodes)

pub validate_ancestor_graph-ne-fault :
    (graph : List Node) (limits : RevisionLimits) → validate_ancestor_graph graph limits ≢ fault
unfolding validate_ancestor_graph
validate_ancestor_graph-ne-fault graph limits e =
    let start = zeros (length graph) in
    let ends =
      visit_all-Ends graph 0 (length graph) start (omega arith) (length-zeros (length graph)) in
    ground (arith, check_nodes-ne-fault limits [] graph, ends.0)
