-- ===== src/History/Bodies.antt =====
-- The pass of `validate_graph` in src/format/revision_graph.cpp over the retained bodies.
use scpefe.Base.{
  Bool, Bytes, List, Option, Outcome, [], err, if◌then◌else◌, none, not, ok, require_or, some, ◌&&◌,
  ◌++◌, ◌==◌, ◌>>=◌, ◌>>◌, ◌||◌, ◌∷◌,
}
use scpefe.Cbor.Limits.{RevisionError, RevisionLimits, malformed_cbor}
use scpefe.Cbor.Reader.{text}
use scpefe.Graph.Body.{is_digest, is_whole}
use scpefe.Graph.Content.{apply_delta, body_of, content_prefix}
use scpefe.Graph.Parsing.{has}
use scpefe.Graph.Records.{RevisionRecord}
use scpefe.History.Line.{is_kind}

abbrev pub is_content_record : RevisionRecord → Bool
is_content_record r = not r.foreign && not (is_kind r 2)

-- A foreign or pruned record keeps the flag that it has.
abbrev pub flagged : RevisionRecord → Option Bytes → RevisionRecord
flagged r current =
    if r.foreign || (is_content_record r && r.storage == 4)
    then r
    else record r { text_available = has current }

-- `current` after a record, and whether its text is available.
module _ (hash : Bytes → Bytes) (limits : RevisionLimits) where
  -- The text of a record is the one whose hash it names.
  unfoldable pub hashed : RevisionRecord → Bytes → Outcome RevisionError Bytes
  hashed r text = do
    require_or malformed_cbor (is_digest r.fields.content_hash (hash (content_prefix ++ text)))
    ok text

  unfoldable pub next_text : Option Bytes → RevisionRecord → Outcome RevisionError Bytes
  unfolding hashed
  next_text current r =
      if is_whole r.storage
      then hashed r (body_of r).text
      else if not (r.storage == 2)
      then err malformed_cbor
      else elim current [
        | none ↦ err malformed_cbor
        | some text ↦ do next ← apply_delta limits r text; hashed r next
      ]

  unfoldable pub body_step : Option Bytes → RevisionRecord → Outcome RevisionError (Option Bytes)
  unfolding next_text
  body_step current r =
      if not (is_content_record r)
      then ok current
      else if r.storage == 4
      then ok none
      else (do next ← next_text current r; ok (some next))

  unfoldable pub check_bodies :
      Option Bytes
      → List RevisionRecord
      → Outcome RevisionError (List RevisionRecord × Option Bytes)
  check_bodies current [] = ok ([], current)
  check_bodies current (r ∷ rs) = do
    next ← body_step current r
    rest ← check_bodies next rs
    ok (flagged r next ∷ rest.0, rest.1)
