-- ===== src/History/WalkEnds.antt =====
-- The walks of `validate_graph` in src/format/revision_graph.cpp over the imports of a merge end,
-- and meet no id that no record has, if every reference is to a record.
-- The ids are those of records.
use mathlib.Core.Path.{subst}
use scpefe.Base.{
  All, All-append, Bool, Bool-cases, List, Option-cases, [], arith, bytes_eq, bytes_eq_refl,
  bytes_eq→eq, false, fault, inl, inr, length, length-append, not, some, suc, sym, true, zero, ℕ,
  ◌++◌, ◌+◌, ◌<◌, ◌||◌, ◌∷◌, ◌≡◌, ◌≢◌, ◌≤◌,
}
use scpefe.Graph.Lineage.{find_record}
use scpefe.Graph.Parsing.{has}
use scpefe.Graph.Records.{RevisionId, RevisionRecord}
use scpefe.History.Line.{is_resolved_by}
use scpefe.History.Merges.{mem_id, origins, unvisited, visit, walk}

abbrev pub AreFound : List RevisionRecord → List RevisionId → Type 0
AreFound records = All (λ id. has (find_record id records) ≡ true)

-- Whatever a record stands on is a record.
abbrev pub AreClosed : List RevisionRecord → List RevisionRecord → Type 0
AreClosed records = All (λ r. AreFound records (origins r))

unvisited-cons :
    (id : RevisionId) (reachable : List RevisionId) (rs : List RevisionRecord)
    → unvisited (id ∷ reachable) rs ≤ unvisited reachable rs
unfolding unvisited mem_id
unvisited-cons id reachable [] = omega arith
unvisited-cons id reachable (r ∷ rs) = ground (arith, unvisited-cons id reachable rs)

-- A visit counts off the record's references.
unvisited-visit :
    (id : RevisionId) (reachable : List RevisionId) (rs : List RevisionRecord) (r : RevisionRecord)
    → find_record id rs ≡ some r
    → mem_id id reachable ≡ false
    → unvisited (id ∷ reachable) rs + length (origins r) ≤ unvisited reachable rs
unfolding unvisited mem_id find_record
unvisited-visit id reachable [] r h n = cc
unvisited-visit id reachable (x ∷ xs) r h n = elim (Bool-cases (bytes_eq x.id id)) [
  | inl same ↦
      let equal = bytes_eq→eq x.id id same in
      let now : mem_id x.id (id ∷ reachable) ≡ true = ground (arith, bytes_eq_refl x.id) in
      let before : mem_id x.id reachable ≡ false = rw equal n in
      let rest = unvisited-cons id reachable xs in
      let found : x ≡ r = ground arith in rw (sym found) (ground (arith, now, before, rest))
  | inr other ↦
      let rest = unvisited-visit id reachable xs r (ground arith) n in ground (arith, rest)
]

find_record-closed :
    (P : RevisionRecord → Type 0) (id : RevisionId) (rs : List RevisionRecord) (r : RevisionRecord)
    → All P rs
    → find_record id rs ≡ some r
    → P r
unfolding find_record
find_record-closed P id [] r h e = cc
find_record-closed P id (x ∷ xs) r h e = elim (Bool-cases (bytes_eq x.id id)) [
  | inl same ↦ let equal : x ≡ r = ground arith in subst P equal h.0
  | inr other ↦ find_record-closed P id xs r h.1 (ground arith)
]

module _ (records : List RevisionRecord) (closed : AreClosed records records) where
  pub walk-ne-fault :
      (merge : RevisionId) (fuel : ℕ) (reachable : List RevisionId) (shared : Bool)
      (pending : List RevisionId)
      → length pending + unvisited reachable records < fuel
      → AreFound records pending
      → walk records merge fuel
          (record { reachable = reachable; shared = shared; pending = pending })
        ≢ fault
  unfolding walk visit
  walk-ne-fault merge zero reachable shared pending h found e = absurd (omega arith)
  walk-ne-fault merge (suc fuel) reachable shared [] h found e = cc
  walk-ne-fault merge (suc fuel) reachable shared (id ∷ rest) h found e =
      elim (Bool-cases (mem_id id reachable)) [
        | inl seen ↦
            walk-ne-fault merge fuel reachable shared rest (omega arith) found.1 (ground arith)
        | inr new ↦ elim (Option-cases (find_record id records)) [
          | inl absent ↦ absurd (ground arith)
          | inr (r, q) ↦
              let less = unvisited-visit id reachable records r q new in
              let origins_found =
                find_record-closed (λ x. AreFound records (origins x)) id records r closed q in
              elim (Bool-cases (not r.foreign || not (is_resolved_by r merge))) [
                | inl ours ↦
                    walk-ne-fault merge fuel (id ∷ reachable) true rest (omega arith) found.1
                      (ground arith)
                | inr theirs ↦
                    walk-ne-fault merge fuel (id ∷ reachable) shared (origins r ++ rest)
                      (omega (arith, length-append (origins r) rest))
                      (All-append _ (origins r) rest origins_found found.1) (ground arith)
              ]
        ]
      ]
