-- ===== src/History/NewRecords.antt =====
-- The records that `save_content`, `merge_with`, `compact_at` and `append_event` of
-- src/format/revision_graph.cpp write. `hash` stands for `blake2b_256`.
use scpefe.Base.{Bool, Bytes, List, [], length, ◌++◌, ◌∷◌}
use scpefe.Cbor.Reader.{head}
use scpefe.Cbor.Writer.{Writes, put_array, put_bytes, put_map, put_raw, put_text, put_unsigned, ◌▷◌}
use scpefe.Graph.Body.{body_prefix, id_prefix}
use scpefe.Graph.Content.{content_prefix}
use scpefe.Graph.Records.{RevisionGraph, RevisionId, RevisionRecord}
use scpefe.History.Encoding.{Attribution, id_or_zero, put_attribution}
use scpefe.History.Saving.{put_record}

unfoldable pub put_ids : List RevisionId → Writes
put_ids [] output = output
put_ids (id ∷ ids) output = put_ids ids (output ▷ put_bytes id)

-- What a content record stands on.
pub record Origins : Type 0 where
  pub previous : RevisionId
  pub content_parent : RevisionId
  pub merge_sources : List RevisionId

unfoldable pub content_immutable : Origins → Attribution → RevisionId → RevisionId → Bytes
unfolding put_attribution put_ids
content_immutable o a content_hash body_digest =
    []
    ▷ put_map 13
    ▷ put_unsigned 1
    ▷ put_unsigned 1
    ▷ put_unsigned 2
    ▷ put_bytes o.previous
    ▷ put_unsigned 3
    ▷ put_bytes o.content_parent
    ▷ put_unsigned 4
    ▷ put_array (length o.merge_sources)
    ▷ put_ids o.merge_sources
    ▷ put_attribution a
    ▷ put_unsigned 12
    ▷ put_bytes content_hash
    ▷ put_unsigned 13
    ▷ put_bytes body_digest

unfoldable pub event_immutable : RevisionId → Attribution → RevisionId → Bytes → Bytes → Bytes
unfolding put_attribution
event_immutable head a content_hash event_type details =
    []
    ▷ put_map 13
    ▷ put_unsigned 1
    ▷ put_unsigned 2
    ▷ put_unsigned 2
    ▷ put_bytes head
    ▷ put_unsigned 4
    ▷ put_array 0
    ▷ put_attribution a
    ▷ put_unsigned 12
    ▷ put_bytes content_hash
    ▷ put_unsigned 14
    ▷ put_text event_type
    ▷ put_unsigned 15
    ▷ put_raw details

-- An id, and the record that has it.
abbrev pub NewRecord : Type 0
NewRecord = RevisionId × Bytes

-- A record without a body.
unfoldable pub put_event : RevisionId → Bytes → Bytes
put_event id immutable =
    []
    ▷ put_map 3
    ▷ put_unsigned 1
    ▷ put_bytes id
    ▷ put_unsigned 2
    ▷ put_raw immutable
    ▷ put_unsigned 3
    ▷ put_unsigned 0

module _ (hash : Bytes → Bytes) where
  unfoldable pub content_record : Origins → Attribution → Bytes → Bytes → Bool → NewRecord
  unfolding content_immutable put_record
  content_record o a content body regular =
      let immutable =
        content_immutable o a (hash (content_prefix ++ content)) (hash (body_prefix ++ body)) in
      let id = hash (id_prefix ++ immutable) in (id, put_record id immutable 2 body regular)

  -- An event repeats the content hash of the record before it.
  unfoldable pub event_record :
      RevisionGraph → RevisionRecord → Attribution → Bytes → Bytes → NewRecord
  unfolding event_immutable put_event
  event_record g last a event_type details =
      let immutable =
        event_immutable g.head a (id_or_zero last.fields.content_hash) event_type details in
      let id = hash (id_prefix ++ immutable) in (id, put_event id immutable)
