-- ===== src/Graph/Content.antt =====
-- `apply_delta` and `reconstruct_at` of src/format/revision_graph.cpp.
use scpefe.Base.{
  Bool, Bytes, List, Option, Outcome, [], bytes_eq, drop, err, fault, get_elem?, if◌then◌else◌, leb,
  length, ltb, none, not, ok, require_or, some, suc, take, zero, ℕ, ◌&&◌, ◌++◌, ◌+◌, ◌-◌, ◌==◌,
  ◌>>=◌, ◌>>◌, ◌||◌, ◌∷◌,
}
use scpefe.Cbor.Limits.{RevisionError, RevisionLimits, malformed_cbor}
use scpefe.Cbor.Reader.{text}
use scpefe.Graph.Body.{is_digest, is_whole}
use scpefe.Graph.Parsing.{is_number}
use scpefe.Graph.Records.{Body, RevisionId, RevisionRecord, Segment}
use scpefe.Text.{valid_canonical_document_text}

-- "SCPEFE-CONTENT-V3\0"
abbrev pub content_prefix : Bytes
content_prefix =
    0x53 ∷ 0x43 ∷ 0x50 ∷ 0x45 ∷ 0x46 ∷ 0x45 ∷ 0x2d ∷ 0x43 ∷ 0x4f ∷ 0x4e ∷ 0x54 ∷ 0x45 ∷ 0x4e ∷ 0x54
    ∷ 0x2d ∷ 0x56 ∷ 0x33 ∷ 0 ∷ []

abbrev pub no_body : Body
no_body = record { size = 0; text = []; segments = [] }

abbrev pub body_of : RevisionRecord → Body
body_of r = elim r.body [ none ↦ no_body | some b ↦ b.0 ]

-- The bytes of one segment.
unfoldable pub piece : Bytes → Segment → Outcome RevisionError Bytes
piece source s =
    if s.inserts
    then ok s.text
    else if ltb (length source) s.start || ltb (length source - s.start) s.count
    then err malformed_cbor
    else ok (take s.count (drop s.start source))

unfoldable pub pieces : Bytes → List Segment → Outcome RevisionError Bytes
pieces source [] = ok []
pieces source (s ∷ ss) = do next ← piece source s; rest ← pieces source ss; ok (next ++ rest)

unfoldable pub is_content : RevisionLimits → Bytes → Bool
is_content limits text =
    leb (length text) limits.max_text_bytes && valid_canonical_document_text text

unfoldable pub apply_delta : RevisionLimits → RevisionRecord → Bytes → Outcome RevisionError Bytes
unfolding is_content
apply_delta limits r source = do
  next ← pieces source (body_of r).segments
  require_or malformed_cbor (length next == (body_of r).size && is_content limits next)
  ok next

-- `find_if` on the id.
unfoldable pub find_index : RevisionId → List RevisionRecord → Option ℕ
find_index id [] = none
find_index id (r ∷ rs) =
    let rest = find_index id rs in
    if bytes_eq r.id id then some 0 else elim rest [ none ↦ none | some i ↦ some (i + 1) ]

-- One round of the search for a materialized record: it is here, there is none, or it is at or
-- before the parent.
pub data Anchor : Type 0 where
  here nowhere : Anchor
  parent : ℕ → Anchor

unfoldable pub anchor_step : List RevisionRecord → ℕ → Outcome RevisionError Anchor
anchor_step records i = elim (get_elem? records i) [
  | none ↦ fault
  | some r ↦
      if is_whole r.storage
      then ok here
      else if not (r.storage == 2)
      then ok nowhere
      else elim r.fields.content_parent [
        | none ↦ ok nowhere
        | some id ↦ elim (find_index id (take i records)) [
          | none ↦ err malformed_cbor
          | some j ↦ ok (parent j)
        ]
      ]
]

unfoldable pub find_anchor : ℕ → List RevisionRecord → ℕ → Outcome RevisionError (Option ℕ)
find_anchor zero records i = fault
find_anchor (suc fuel) records i = elim (anchor_step records i) [
  | ok here ↦ ok (some i)
  | ok nowhere ↦ ok none
  | ok (parent j) ↦ find_anchor fuel records j
  | err e ↦ err e
  | fault ↦ fault
]

module _ (hash : Bytes → Bytes) (limits : RevisionLimits) where
  -- One record behind the anchor; `none` where the content was pruned.
  unfoldable pub forward_step : Bytes → RevisionRecord → Outcome RevisionError (Option Bytes)
  forward_step text r =
      if r.foreign || is_number r.fields.kind 2
      then ok (some text)
      else if is_whole r.storage
      then ok (some (body_of r).text)
      else if r.storage == 4
      then ok none
      else if not (r.storage == 2)
      then err malformed_cbor
      else (do
        next ← apply_delta limits r text
        require_or malformed_cbor (is_digest r.fields.content_hash (hash (content_prefix ++ next)))
        ok (some next))

  unfoldable pub forward : Bytes → List RevisionRecord → Outcome RevisionError (Option Bytes)
  forward text [] = ok (some text)
  forward text (r ∷ rs) = elim (forward_step text r) [
    | ok none ↦ ok none
    | ok (some next) ↦ forward next rs
    | err e ↦ err e
    | fault ↦ fault
  ]

  -- The text of the anchor, and the records behind it up to the index.
  unfoldable pub replay : List RevisionRecord → ℕ → ℕ → Outcome RevisionError (Option Bytes)
  replay records index i = elim (get_elem? records i) [
    | none ↦ fault
    | some r ↦ forward (body_of r).text (take (index - i) (drop (i + 1) records))
  ]

  unfoldable pub reconstruct_at : List RevisionRecord → ℕ → Outcome RevisionError (Option Bytes)
  reconstruct_at records index = elim (get_elem? records index) [
    | none ↦ fault
    | some wanted ↦
        if wanted.foreign || is_number wanted.fields.kind 2
        then ok none
        else elim (find_anchor (index + 1) records index) [
          | ok none ↦ ok none
          | ok (some i) ↦ replay records index i
          | err e ↦ err e
          | fault ↦ fault
        ]
  ]
