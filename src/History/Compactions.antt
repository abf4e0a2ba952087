-- ===== src/History/Compactions.antt =====
-- The last loops of `validate_graph` in src/format/revision_graph.cpp, over the compactions.
use scpefe.Base.{
  Bool, List, Option, Outcome, [], drop, false, get_elem?, if◌then◌else◌, leb, ltb, none, not, ok,
  require_or, some, take, true, ℕ, ◌&&◌, ◌+◌, ◌-◌, ◌==◌, ◌>>◌, ◌||◌, ◌∷◌,
}
use scpefe.Cbor.Limits.{RevisionError, malformed_cbor}
use scpefe.Cbor.Reader.{bytes}
use scpefe.Graph.Parsing.{is_compaction, is_number}
use scpefe.Graph.Records.{RevisionId, RevisionRecord}
use scpefe.History.Bodies.{is_content_record}
use scpefe.History.Line.{index_of, is_kind}

abbrev pub is_compacting : RevisionRecord → Bool
is_compacting r = not r.foreign && is_compaction r.fields.event_type

unfoldable pub count_deltas : List RevisionRecord → ℕ
count_deltas [] = 0
count_deltas (r ∷ rs) = (if not r.foreign && is_kind r 1 then 1 else 0) + count_deltas rs

abbrev pub cutoff_of : RevisionRecord → Option RevisionId
cutoff_of r = elim r.fields.event_details [ none ↦ none | some (facts, bytes) ↦ facts.cutoff ]

abbrev pub retained_of : RevisionRecord → Option ℕ
retained_of r = elim r.fields.event_details [ none ↦ none | some (facts, bytes) ↦ facts.retained ]

abbrev holds_content : Option RevisionRecord → Bool
holds_content none = false
holds_content (some r) = is_content_record r

abbrev least : Option ℕ → ℕ
least none = 0
least (some c) = c

-- The event at `event` cuts off at `cutoff`, not before the last cutoff.
unfoldable pub cutoff_fits : List RevisionRecord → Option ℕ → ℕ → ℕ → Option ℕ → Bool
unfolding count_deltas
cutoff_fits records prior event cutoff retained =
    ltb cutoff event
    && leb (least prior) cutoff
    && holds_content (get_elem? records cutoff)
    && is_number retained (count_deltas (take (event - (cutoff + 1)) (drop (cutoff + 1) records)))

-- `prior` is the cutoff of the latest compaction; `event` is the index of the next record.
unfoldable pub check_events :
    List RevisionRecord → Option ℕ → ℕ → List RevisionRecord → Outcome RevisionError (Option ℕ)
unfolding cutoff_fits
check_events records prior event [] = ok prior
check_events records prior event (r ∷ rs) = do
  let cutoff = index_of records (cutoff_of r)
  require_or malformed_cbor (
      not (is_compacting r) || (elim cutoff [
        | none ↦ false
        | some c ↦ cutoff_fits records prior event c (retained_of r)
      ]))
  check_events records (if is_compacting r then cutoff else prior) (event + 1) rs

unfoldable pub all_pruned : List RevisionRecord → Bool
all_pruned [] = true
all_pruned (r ∷ rs) = (not (is_content_record r) || r.storage == 4) && all_pruned rs

abbrev is_checkpoint : Option RevisionRecord → Bool
is_checkpoint none = false
is_checkpoint (some r) = r.storage == 3

-- What is before the latest cutoff is pruned, and the cutoff is a checkpoint.
unfoldable pub is_compacted : List RevisionRecord → Option ℕ → Bool
unfolding all_pruned
is_compacted records latest = elim latest [
  | none ↦ true
  | some c ↦ is_checkpoint (get_elem? records c) && all_pruned (take c records)
]
