-- ===== src/History/Merges.antt =====
-- The third loop of `validate_graph` in src/format/revision_graph.cpp: the records that a merge
-- imports form a closed path from its sources back to the shared line.
use mathlib.Core.List.{reverse}
use scpefe.Base.{
  Bool, List, Option, Outcome, [], bytes_eq, err, false, fault, if◌then◌else◌, length, none, not,
  ok, require_or, some, suc, true, zero, ℕ, ◌&&◌, ◌++◌, ◌+◌, ◌>>=◌, ◌>>◌, ◌||◌, ◌∷◌,
}
use scpefe.Cbor.Limits.{RevisionError, malformed_cbor}
use scpefe.Graph.Lineage.{find_record}
use scpefe.Graph.Parsing.{no_sources}
use scpefe.Graph.Records.{RevisionId, RevisionRecord}
use scpefe.History.Line.{is_resolved_by, same_id, sources_of}

unfoldable pub mem_id : RevisionId → List RevisionId → Bool
mem_id id [] = false
mem_id id (x ∷ xs) = bytes_eq x id || mem_id id xs

abbrev pub id_list : Option RevisionId → List RevisionId
id_list none = []
id_list (some id) = id ∷ []

-- `reachable`, `shared` and `pending`, whose back is the head of the list.
pub record Walk : Type 0 where
  pub reachable : List RevisionId
  pub shared : Bool
  pub pending : List RevisionId

-- What a record adds to `pending`.
abbrev pub origins : RevisionRecord → List RevisionId
origins r = reverse (sources_of r) ++ (id_list r.fields.content_parent ++ id_list r.fields.previous)

-- `id` was popped and is new. An id that no record has makes `seen.at` throw another exception.
unfoldable pub visit :
    List RevisionRecord → RevisionId → RevisionId → Walk → Outcome RevisionError Walk
visit records merge id w = elim (find_record id records) [
  | none ↦ fault
  | some r ↦
      if not r.foreign || not (is_resolved_by r merge)
      then ok (record w { reachable = id ∷ w.reachable; shared = true })
      else ok (record w { reachable = id ∷ w.reachable; pending = origins r ++ w.pending })
]

unfoldable pub walk : List RevisionRecord → RevisionId → ℕ → Walk → Outcome RevisionError Walk
walk records merge zero w = fault
walk records merge (suc fuel) w = elim w.pending [
  | [] ↦ ok w
  | id ∷ rest ↦ elim (mem_id id w.reachable) [
    | true ↦ walk records merge fuel (record w { pending = rest })
    | false ↦ elim (visit records merge id (record w { pending = rest })) [
      | ok next ↦ walk records merge fuel next
      | err e ↦ err e
      | fault ↦ fault
    ]
  ]
]

-- Enough fuel: each id is expanded once.
unfoldable pub unvisited : List RevisionId → List RevisionRecord → ℕ
unvisited reachable [] = 0
unvisited reachable (r ∷ rs) =
    (if mem_id r.id reachable then 0 else length (origins r)) + unvisited reachable rs

unfoldable pub walk_from : List RevisionRecord → RevisionRecord → Outcome RevisionError Walk
unfolding unvisited
walk_from records merge =
    let sources = reverse (sources_of merge) in
    walk records merge.id (suc (length sources + unvisited [] records))
      (record { reachable = []; shared = false; pending = sources })

-- Every import of the merge was reached.
unfoldable pub all_reached : RevisionId → List RevisionId → List RevisionRecord → Bool
all_reached merge reachable [] = true
all_reached merge reachable (r ∷ rs) =
    (not (r.foreign && is_resolved_by r merge) || mem_id r.id reachable)
    && all_reached merge reachable rs

abbrev stands_on : RevisionRecord → RevisionId → Bool
stands_on r source =
    same_id r.fields.previous (some source) || same_id r.fields.content_parent (some source)

-- No import stands on a source of its merge: the sources are ends.
unfoldable pub is_end : RevisionId → RevisionId → List RevisionRecord → Bool
is_end merge source [] = true
is_end merge source (r ∷ rs) =
    not (r.foreign && is_resolved_by r merge && not (bytes_eq r.id source) && stands_on r source)
    && is_end merge source rs

unfoldable pub all_ends : RevisionId → List RevisionRecord → List RevisionId → Bool
unfolding is_end
all_ends merge records [] = true
all_ends merge records (source ∷ sources) =
    is_end merge source records && all_ends merge records sources

abbrev pub is_merging : RevisionRecord → Bool
is_merging r = not r.foreign && not (no_sources r.fields.merge_sources)

unfoldable pub check_merge : List RevisionRecord → RevisionRecord → Outcome RevisionError (Unit {0})
unfolding all_reached all_ends
check_merge records merge = do
  w ← walk_from records merge
  require_or malformed_cbor (
      w.shared
      && all_reached merge.id w.reachable records
      && all_ends merge.id records (sources_of merge))

unfoldable pub check_merges :
    List RevisionRecord → List RevisionRecord → Outcome RevisionError (Unit {0})
check_merges records [] = ok tt
check_merges records (r ∷ rs) = do
  if is_merging r then check_merge records r else ok tt
  check_merges records rs
