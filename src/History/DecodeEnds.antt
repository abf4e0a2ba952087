-- ===== src/History/DecodeEnds.antt =====
-- `decode` of src/format/revision_graph.cpp ends, and stays within what the language defines.
use mathlib.Core.List.{reverse}
use scpefe.Base.{
  All-of_append, Bytes, List, Option, Outcome-cases, [], arith, false, fault, if◌then◌else◌, inl,
  inr, none, required-ne-fault, some, ℕ, ◌++◌, ◌+◌, ◌∷◌, ◌≢◌,
}
use scpefe.Cbor.Limits.{RevisionLimits}
use scpefe.Cbor.Reader.{text}
use scpefe.Cbor.Reading.{at}
use scpefe.Cbor.Safety.{>>=-IsSafe, IsSafe}
use scpefe.Graph.Bounds.{IsSafe-IsClosed}
use scpefe.Graph.Reconstruction.{apply_delta-ne-fault}
use scpefe.Graph.Records.{RevisionId, RevisionRecord}
use scpefe.History.Bodies.{body_step, check_bodies, hashed, next_text}
use scpefe.History.Closure.{graph_body_closed}
use scpefe.History.Compactions.{check_events, cutoff_of, is_compacting}
use scpefe.History.Decoding.{decode, graph_body, graph_fields, read_end, validated}
use scpefe.History.Line.{Line, advance, check_line, index_of, no_line, sources_of}
use scpefe.History.LineKnown.{check_line-AreClosed}
use scpefe.History.Merges.{check_merge, check_merges, walk_from}
use scpefe.History.Validation.{validate_graph}
use scpefe.History.WalkEnds.{AreClosed, AreFound, walk-ne-fault}

check_line-ne-fault :
    (seen rs : List RevisionRecord) (line : Line) → check_line seen line rs ≢ fault
unfolding check_line
check_line-ne-fault seen [] line e = cc
check_line-ne-fault seen (r ∷ rs) line e =
    required-ne-fault _ _ _ (check_line-ne-fault (seen ++ (r ∷ [])) rs (advance line r)) e

walk_from-ne-fault :
    (records : List RevisionRecord) (merge : RevisionRecord)
    → AreClosed records records
    → AreFound records (reverse (sources_of merge))
    → walk_from records merge ≢ fault
unfolding walk_from
walk_from-ne-fault records merge closed found =
    walk-ne-fault records closed merge.id _ [] false (reverse (sources_of merge)) (omega arith)
      found

check_merges-ne-fault :
    (records rs : List RevisionRecord)
    → AreClosed records records
    → AreClosed records rs
    → check_merges records rs ≢ fault
unfolding check_merges check_merge
check_merges-ne-fault records [] closed found e = cc
check_merges-ne-fault records (r ∷ rs) closed found e =
    let sources = (All-of_append _ (reverse (sources_of r)) _ found.0).0 in
    ground (
      arith,
      walk_from-ne-fault records r closed sources,
      check_merges-ne-fault records rs closed found.1,
    )

module _ (hash : Bytes → Bytes) (limits : RevisionLimits) where
  next_text-ne-fault :
      (current : Option Bytes) (r : RevisionRecord) → next_text hash limits current r ≢ fault
  unfolding next_text hashed
  next_text-ne-fault none r e = ground arith
  next_text-ne-fault (some text) r e = ground (arith, apply_delta-ne-fault limits r text)

  check_bodies-ne-fault :
      (current : Option Bytes) (rs : List RevisionRecord)
      → check_bodies hash limits current rs ≢ fault
  unfolding check_bodies body_step
  check_bodies-ne-fault current [] e = cc
  check_bodies-ne-fault current (r ∷ rs) e =
      elim (Outcome-cases (body_step hash limits current r)) [
        | inl (next, q) ↦ ground (arith, check_bodies-ne-fault next rs)
        | inr failed ↦ ground (arith, next_text-ne-fault current r)
      ]

  check_events-ne-fault :
      (records : List RevisionRecord) (prior : Option ℕ) (event : ℕ) (rs : List RevisionRecord)
      → check_events records prior event rs ≢ fault
  unfolding check_events
  check_events-ne-fault records prior event [] e = cc
  check_events-ne-fault records prior event (r ∷ rs) e =
      required-ne-fault _ _ _
        (check_events-ne-fault records
          (if is_compacting r then index_of records (cutoff_of r) else prior) (event + 1) rs)
        e

  validate_graph-ne-fault :
      (records : List RevisionRecord) (newest text_head : RevisionId)
      → validate_graph hash limits records newest text_head ≢ fault
  unfolding validate_graph
  validate_graph-ne-fault records newest text_head e =
      elim (Outcome-cases (check_line [] no_line records)) [
        | inl (line, q) ↦
            let closed = check_line-AreClosed [] records no_line line q in
            ground (
              arith,
              check_merges-ne-fault records records closed closed,
              check_bodies-ne-fault none records,
              check_events-ne-fault records none 0 records,
            )
        | inr failed ↦ ground (arith, check_line-ne-fault [] records no_line)
      ]

  graph_fields-IsSafe : IsSafe (graph_fields hash limits)
  unfolding graph_fields read_end
  graph_fields-IsSafe =
      >>=-IsSafe (graph_body hash limits) _
        (graph_body_closed (λ A m. IsSafe m) IsSafe-IsClosed hash limits) λ g r e. ground arith

  -- Whatever the input, the limits and the hash function, the decoding of a graph returns or throws
  -- a failure: it reads within the input, its walks over the imports of a merge end, and it meets no
  -- id that no record has.
  pub decode-ne-fault : (input : Bytes) → decode hash limits input ≢ fault
  unfolding decode validated
  decode-ne-fault input e = elim (Outcome-cases (graph_fields hash limits (at input 0))) [
    | inl ((g, r), q) ↦ ground (arith, validate_graph-ne-fault g.records g.head g.content_head)
    | inr failed ↦ ground (arith, graph_fields-IsSafe (at input 0))
  ]
