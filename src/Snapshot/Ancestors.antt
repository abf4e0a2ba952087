-- ===== src/Snapshot/Ancestors.antt =====
-- `validate_ancestor_graph` of src/format/snapshot_revision.cpp. The map from ids to indices is the
-- search for the first node with the id; the source refuses a second one.
-- The index of the node.
use scpefe.Base.{
  Bool, Bytes, List, Option, Outcome, [], bytes_eq, err, false, fault, get_elem?, if◌then◌else◌,
  leb, length, none, not, ok, require_or, some, suc, true, zero, ℕ, ◌&&◌, ◌++◌, ◌+◌, ◌==◌, ◌>>◌,
  ◌||◌, ◌∷◌,
}
use scpefe.Cbor.Limits.{RevisionError, RevisionLimits, invalid_argument, limit_exceeded}
use scpefe.Snapshot.Data.{Node, ids, parent_count, whole_ids}

unfoldable pub find_node : Bytes → List Node → Option ℕ
find_node id [] = none
find_node id (node ∷ nodes) =
    let rest = find_node id nodes in
    if bytes_eq node.revision_id id
    then some 0
    else elim rest [ none ↦ none | some i ↦ some (i + 1) ]

abbrev pub node_known : Option ℕ → Bool
node_known none = false
node_known (some i) = true

-- The tests of the nodes, behind the nodes `seen`.
unfoldable pub check_nodes :
    RevisionLimits → List Node → List Node → Outcome RevisionError (Unit {0})
unfolding find_node
check_nodes limits seen [] = ok tt
check_nodes limits seen (node ∷ nodes) = do
  require_or invalid_argument (whole_ids node.parent_revision_ids)
  require_or limit_exceeded (
      leb (parent_count node.parent_revision_ids) limits.max_parent_count
      && leb (parent_count node.parent_revision_ids) limits.max_collection_entries)
  require_or invalid_argument (not (node_known (find_node node.revision_id seen)))
  check_nodes limits (seen ++ (node ∷ [])) nodes

-- `state`: 0 new, 1 on the path, 2 done.
unfoldable pub set_state : ℕ → ℕ → List ℕ → List ℕ
set_state i value [] = []
set_state zero value (x ∷ xs) = value ∷ xs
set_state (suc i) value (x ∷ xs) = x ∷ set_state i value xs

abbrev pub Visit : Type 0
Visit = ℕ → List ℕ → Outcome RevisionError (List ℕ)

-- The loop over the parents, which visits those that are nodes.
unfoldable pub visit_parents :
    List Node → Visit → List Bytes → List ℕ → Outcome RevisionError (List ℕ)
visit_parents graph visit [] state = ok state
visit_parents graph visit (id ∷ rest) state = elim (find_node id graph) [
  | none ↦ visit_parents graph visit rest state
  | some i ↦ elim (visit i state) [
    | ok next ↦ visit_parents graph visit rest next
    | err e ↦ err e
    | fault ↦ fault
  ]
]

unfoldable pub visit_node : List Node → ℕ → ℕ → List ℕ → Outcome RevisionError (List ℕ)
unfolding visit_parents set_state
visit_node graph zero index state = fault
visit_node graph (suc fuel) index state = elim (get_elem? state index) [
  | none ↦ fault
  | some mark ↦ elim (get_elem? graph index) [
    | none ↦ fault
    | some node ↦ elim (mark == 1) [
      | true ↦ err invalid_argument
      | false ↦ elim (mark == 2) [
        | true ↦ ok state
        | false ↦
            let parents = ids (parent_count node.parent_revision_ids) node.parent_revision_ids in
            elim (visit_parents graph (visit_node graph fuel) parents (set_state index 1 state)) [
              | ok next ↦ ok (set_state index 2 next)
              | err e ↦ err e
              | fault ↦ fault
            ]
      ]
    ]
  ]
]

-- The visits of the nodes from `index` on, of which there are `left`. Enough fuel: a visit on the
-- path marks one more node.
unfoldable pub visit_all : List Node → ℕ → ℕ → List ℕ → Outcome RevisionError (List ℕ)
unfolding visit_node
visit_all graph index zero state = ok state
visit_all graph index (suc left) state = elim (visit_node graph (suc (length graph)) index state) [
  | ok next ↦ visit_all graph (index + 1) left next
  | err e ↦ err e
  | fault ↦ fault
]

unfoldable pub zeros : ℕ → List ℕ
zeros zero = []
zeros (suc n) = 0 ∷ zeros n

unfoldable pub validate_ancestor_graph :
    List Node → RevisionLimits → Outcome RevisionError (Unit {0})
unfolding check_nodes visit_all zeros
validate_ancestor_graph graph limits = do
  require_or limit_exceeded (
      leb (length graph) limits.max_collection_entries
      && (length graph == 0 || leb 4 limits.max_nesting_depth))
  check_nodes limits [] graph
  elim (visit_all graph 0 (length graph) (zeros (length graph))) [
    | ok state ↦ ok tt
    | err e ↦ err e
    | fault ↦ fault
  ]
