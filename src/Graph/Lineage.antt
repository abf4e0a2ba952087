-- ===== src/Graph/Lineage.antt =====
-- `RevisionGraph::find` and `assess_target` of src/format/revision_graph.cpp.
use scpefe.Base.{
  All, Bool, Bool-cases, List, Option, Option-cases, Outcome, Outcome-cases, [], arith, bytes_eq,
  err, false, get_elem?, if◌then◌else◌, inl, inr, none, not, ok, refl, require_or, some, suc, true,
  ℕ, ◌&&◌, ◌>>=◌, ◌>>◌, ◌||◌, ◌∷◌, ◌≡◌, ◌⊎◌,
}
use scpefe.Graph.Parsing.{has}
use scpefe.Graph.Records.{RevisionGraph, RevisionId, RevisionRecord}

pub data TargetLineage : Type 0 where
  unchanged advanced divergent : TargetLineage

pub data LineageError : Type 0 where
  rollback unrelated_target malformed : LineageError

unfoldable pub find_record : RevisionId → List RevisionRecord → Option RevisionRecord
find_record id [] = none
find_record id (r ∷ rs) = let rest = find_record id rs in if bytes_eq r.id id then some r else rest

abbrev pub is_canonical : Option RevisionRecord → Bool
is_canonical none = false
is_canonical (some r) = not r.foreign

-- The loop over the target's records: whether one of them is related.
unfoldable pub compare_records :
    List RevisionRecord → Bool → List RevisionRecord → Outcome LineageError Bool
compare_records ours related [] = ok related
compare_records ours related (r ∷ rs) = elim (find_record r.id ours) [
  | none ↦ compare_records ours related rs
  | some same ↦
      let rest = compare_records ours (related || (not same.foreign && not r.foreign)) rs in
      if bytes_eq same.immutable_cbor r.immutable_cbor then rest else err malformed
]

unfoldable pub assess_target : RevisionGraph → RevisionGraph → Outcome LineageError TargetLineage
assess_target ours target =
    if bytes_eq ours.head target.head
    then ok unchanged
    else if is_canonical (find_record ours.head target.records)
    then ok advanced
    else if has (find_record target.head ours.records)
    then err rollback
    else (do
      related ← compare_records ours.records false target.records
      require_or unrelated_target related
      ok divergent)

-- The records that both have agree in their immutable bytes.
abbrev pub Agrees : List RevisionRecord → List RevisionRecord → Type 0
Agrees ours = All λ r.
    (same : RevisionRecord)
    → find_record r.id ours ≡ some same
    → bytes_eq same.immutable_cbor r.immutable_cbor ≡ true

-- A record that is canonical in both.
abbrev pub Shares : List RevisionRecord → List RevisionRecord → Type 0
Shares ours rs =
    (i : ℕ) × (r : RevisionRecord) × (same : RevisionRecord) × (get_elem? rs i ≡ some r)
    × (find_record r.id ours ≡ some same)
    × (same.foreign ≡ false)
    × (r.foreign ≡ false)

compare_records-Agrees :
    (ours : List RevisionRecord) (related b : Bool) (rs : List RevisionRecord)
    → compare_records ours related rs ≡ ok b
    → Agrees ours rs × (b ≡ true → (related ≡ true) ⊎ Shares ours rs)
unfolding compare_records
compare_records-Agrees ours related b [] e = (tt, λ h. inl (ground arith))
compare_records-Agrees ours related b (r ∷ rs) e = elim (Option-cases (find_record r.id ours)) [
  | inl n ↦
      let (all, some_one) =
        compare_records-Agrees ours related b rs (rw (n, compare_records) at e) in
      (
        ((λ same f. absurd (ground arith)), all),
        λ h. elim (some_one h) [
          | inl p ↦ inl p
          | inr (i, x, y, a, f, p, q) ↦ inr (suc i, x, y, a, f, p, q)
        ],
      )
  | inr (same, f) ↦ elim (Bool-cases (bytes_eq same.immutable_cbor r.immutable_cbor)) [
    | inr differs ↦ absurd (ground arith)
    | inl y ↦
        let now = related || (not same.foreign && not r.foreign) in
        let (all, some_one) = compare_records-Agrees ours now b rs (ground arith) in
        (
          ((λ other g. ground arith), all),
          λ h. elim (some_one h) [
            | inr (i, x, y, a, f, p, q) ↦ inr (suc i, x, y, a, f, p, q)
            | inl p ↦ elim (Bool-cases related) [
              | inl already ↦ inl already
              | inr fresh ↦ inr (0, r, same, refl, f, ground arith, ground arith)
            ]
          ],
        )
  ]
]

-- A target is called divergent only if neither head is the other's history, all records that both
-- have agree in their immutable bytes, and one of them is canonical in both.
pub divergent_target :
    (ours target : RevisionGraph)
    → assess_target ours target ≡ ok divergent
    → (is_canonical (find_record ours.head target.records) ≡ false)
      × (find_record target.head ours.records ≡ none)
      × Agrees ours.records target.records
      × Shares ours.records target.records
unfolding assess_target
divergent_target ours target e =
    elim (Outcome-cases (compare_records ours.records false target.records)) [
      | inl (b, c) ↦
          let (all, some_one) = compare_records-Agrees ours.records false b target.records c in
          let yes_b : b ≡ true = ground arith in
          (
            ground arith,
            ground arith,
            all,
            elim (some_one yes_b) [ inl p ↦ absurd (ground arith) | inr s ↦ s ],
          )
      | inr other ↦ absurd (ground arith)
    ]
