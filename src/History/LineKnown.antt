-- ===== src/History/LineKnown.antt =====
-- What the first loop of `validate_graph` in src/format/revision_graph.cpp has tested: a record
-- stands only on records.
use mathlib.Core.List.{append_assoc, reverse, reverse_aux}
use scpefe.Base.{
  All, All-append, Bool, Bool-cases, List, Option, [], arith, bytes_eq, inl, inr, none, ok, some,
  true, ◌++◌, ◌∷◌, ◌≡◌,
}
use scpefe.Graph.Content.{find_index}
use scpefe.Graph.Lineage.{find_record}
use scpefe.Graph.Parsing.{has}
use scpefe.Graph.Records.{RevisionId, RevisionRecord}
use scpefe.History.Line.{
  Line, advance, all_known, check_line, is_last, known, line_fits, sources_of,
}
use scpefe.History.Merges.{id_list, origins}
use scpefe.History.WalkEnds.{AreClosed, AreFound}

has-find_record :
    (id : RevisionId) (seen rest : List RevisionRecord)
    → has (find_index id seen) ≡ true
    → has (find_record id (seen ++ rest)) ≡ true
unfolding find_index find_record
has-find_record id [] rest h = cc
has-find_record id (r ∷ rs) rest h = elim (Bool-cases (bytes_eq r.id id)) [
  | inl same ↦ ground arith
  | inr other ↦
      let behind : has (find_index id rs) ≡ true = ground arith in
      ground (arith, has-find_record id rs rest behind)
]

all_known-AreFound :
    (seen rest : List RevisionRecord) (ids : List RevisionId)
    → all_known seen ids ≡ true
    → AreFound (seen ++ rest) ids
unfolding all_known
all_known-AreFound seen rest [] h = tt
all_known-AreFound seen rest (id ∷ ids) h =
    (has-find_record id seen rest (ground arith), all_known-AreFound seen rest ids (ground arith))

known-AreFound :
    (seen rest : List RevisionRecord) (id : Option RevisionId)
    → known seen id ≡ true
    → AreFound (seen ++ rest) (id_list id)
known-AreFound seen rest none h = tt
known-AreFound seen rest (some id) h = (has-find_record id seen rest h, tt)

All-reverse_aux {ℓ κ} :
    {A : Type ℓ} (P : A → Type κ) (xs ys : List A) → All P xs → All P ys → All P (reverse_aux xs ys)
All-reverse_aux P [] ys h k = k
All-reverse_aux P (x ∷ xs) ys h k = All-reverse_aux P xs (x ∷ ys) h.1 (h.0, k)

line_fits-AreFound :
    (seen rest : List RevisionRecord) (line : Line) (last : Bool) (r : RevisionRecord)
    → line_fits seen line last r ≡ true
    → AreFound (seen ++ rest) (origins r)
unfolding line_fits
line_fits-AreFound seen rest line last r h =
    let previous = known-AreFound seen rest r.fields.previous (ground arith) in
    let content = known-AreFound seen rest r.fields.content_parent (ground arith) in
    let sources = all_known-AreFound seen rest (sources_of r) (ground arith) in
    All-append _ (reverse (sources_of r)) _ (All-reverse_aux _ (sources_of r) [] sources tt)
      (All-append _ (id_list r.fields.content_parent) _ content previous)

pub check_line-AreClosed :
    (seen rs : List RevisionRecord) (line out : Line)
    → check_line seen line rs ≡ ok out
    → AreClosed (seen ++ rs) rs
unfolding check_line
check_line-AreClosed seen [] line out e = tt
check_line-AreClosed seen (r ∷ rs) line out e =
    elim (Bool-cases (line_fits seen line (is_last rs) r)) [
      | inr bad ↦ absurd (ground arith)
      | inl good ↦
          let rest =
            check_line-AreClosed (seen ++ (r ∷ [])) rs (advance line r) out (ground arith) in
          (
            line_fits-AreFound seen (r ∷ rs) line (is_last rs) r good,
            rw (append_assoc seen (r ∷ []) rs) at rest,
          )
    ]
