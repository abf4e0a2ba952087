-- ===== src/History/Comparing.antt =====
-- `compare` of src/format/revision_graph.cpp. `hash` stands for `blake2b_256`.
-- `append`: each line behind the marker, the last one ended by a newline. `starts` if the next byte
-- starts a line.
use scpefe.Base.{
  Bool, Bytes, Option, Outcome, [], bytes_eq, if◌then◌else◌, none, ok, some, true, ℕ, ◌++◌, ◌==◌,
  ◌>>=◌, ◌∷◌,
}
use scpefe.Cbor.Limits.{RevisionError}
use scpefe.Graph.Records.{RevisionGraph, RevisionId}
use scpefe.History.Saving.{reconstruct}

unfoldable pub put_lines : ℕ → Bool → Bytes → Bytes
put_lines marker starts [] = if starts then [] else 10 ∷ []
put_lines marker starts (c ∷ cs) =
    let rest = c ∷ put_lines marker (c == 10) cs in if starts then marker ∷ rest else rest

-- "No content change\n"
abbrev pub no_change : Bytes
no_change =
    0x4e ∷ 0x6f ∷ 0x20 ∷ 0x63 ∷ 0x6f ∷ 0x6e ∷ 0x74 ∷ 0x65 ∷ 0x6e ∷ 0x74 ∷ 0x20 ∷ 0x63 ∷ 0x68 ∷ 0x61
    ∷ 0x6e ∷ 0x67 ∷ 0x65 ∷ 10 ∷ []

-- "--- before\n+++ after\n@@\n"
abbrev pub comparison_head : Bytes
comparison_head =
    0x2d ∷ 0x2d ∷ 0x2d ∷ 0x20 ∷ 0x62 ∷ 0x65 ∷ 0x66 ∷ 0x6f ∷ 0x72 ∷ 0x65 ∷ 10 ∷ 0x2b ∷ 0x2b ∷ 0x2b
    ∷ 0x20 ∷ 0x61 ∷ 0x66 ∷ 0x74 ∷ 0x65 ∷ 0x72 ∷ 10 ∷ 0x40 ∷ 0x40 ∷ 10 ∷ []

unfoldable pub compare_texts : Bytes → Bytes → Bytes
unfolding put_lines
compare_texts before after =
    if bytes_eq before after
    then no_change
    else comparison_head ++ put_lines 0x2d true before ++ put_lines 0x2b true after

-- Both texts are reconstructed before one of them is tested.
unfoldable pub compare_revisions :
    (Bytes → Bytes) → RevisionGraph → RevisionId → RevisionId → Outcome RevisionError (Option Bytes)
unfolding reconstruct compare_texts
compare_revisions hash g before_id after_id = do
  before ← reconstruct hash g before_id
  after ← reconstruct hash g after_id
  ok (elim before [
    | none ↦ none
    | some old ↦ elim after [ none ↦ none | some new ↦ some (compare_texts old new) ]
  ])
