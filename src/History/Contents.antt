-- ===== src/History/Contents.antt =====
-- `save_content` of src/format/revision_graph.cpp. `hash` stands for `blake2b_256`.
-- The records that are kept, and the heads below the new record.
use scpefe.Base.{
  Bool, Bytes, List, Outcome, [], bytes_eq, err, false, fault, if◌then◌else◌, length, ltb, none,
  not, ok, some, take, ◌&&◌, ◌++◌, ◌-◌, ◌>>=◌, ◌||◌, ◌∷◌,
}
use scpefe.Cbor.Limits.{RevisionError, default_limits}
use scpefe.Cbor.Reader.{discard, text}
use scpefe.Graph.Content.{is_content}
use scpefe.Graph.Parsing.{is_number}
use scpefe.Graph.Records.{Immutable, RevisionGraph, RevisionId, RevisionRecord}
use scpefe.History.Encoding.{
  Attribution, GraphFields, decoded, fields_of, last_record, put_graph, records_cbor,
}
use scpefe.History.Line.{same_id}
use scpefe.History.NewRecords.{NewRecord, content_record}
use scpefe.History.Saving.{inserting_body, invalid_when, max_timestamp, put_record, reconstruct}

pub record Base : Type 0 where
  pub kept : List RevisionRecord
  pub head : RevisionId
  pub content_head : RevisionId

-- A provisional record at the end makes place. `value()` of an absent id throws another exception.
unfoldable pub base_of : RevisionGraph → RevisionRecord → Outcome RevisionError Base
base_of g last =
    if last.provisional
    then elim last.fields.previous [
      | none ↦ fault
      | some previous ↦ elim last.fields.content_parent [
        | none ↦ fault
        | some content ↦ ok (record {
          kept = take (length g.records - 1) g.records;
          head = previous;
          content_head = content;
        })
      ]
    ]
    else ok (record { kept = g.records; head = g.head; content_head = g.content_head })

-- The attribution of the last record is the one to be written.
unfoldable pub same_attribution : Immutable → Attribution → Bool
same_attribution x a =
    is_number x.timestamp_ms a.timestamp_ms
    && same_id x.actor_slot (some a.actor.id)
    && same_id x.actor_name (some a.actor.name)
    && same_id x.actor_email (some a.actor.email)
    && same_id x.client_name (some a.client_name)
    && same_id x.client_email (some a.client_email)
    && same_id x.device (some a.device)

abbrev pub body_cbor_of : RevisionRecord → Bytes
body_cbor_of r = elim r.body [ none ↦ [] | some b ↦ b.1 ]

module _ (hash : Bytes → Bytes) (g : RevisionGraph) where
  -- `reconstruct(content_head_).value()`
  unfoldable pub head_text : Outcome RevisionError Bytes
  unfolding reconstruct
  head_text = elim (reconstruct hash g g.content_head) [
    | ok (some text) ↦ ok text
    | ok none ↦ fault
    | err e ↦ err e
    | fault ↦ fault
  ]

  -- The provisional record already is what is to be saved.
  unfoldable pub repeats : RevisionRecord → Attribution → Bytes → Bool → Outcome RevisionError Bool
  unfolding head_text same_attribution
  repeats last a content regular =
      if last.provisional && not regular
      then (do text ← head_text; ok (bytes_eq content text && same_attribution last.fields a))
      else ok false

  unfoldable pub saved_record :
      RevisionRecord → Base → Attribution → Bytes → Bool → Outcome RevisionError NewRecord
  unfolding repeats put_record content_record inserting_body
  saved_record last base a content regular = do
    same ← repeats last a content regular
    if same
        then ok
            (last.id, put_record last.id last.immutable_cbor last.storage (body_cbor_of last) false)
        else ok (
            content_record hash
              (record {
                previous = base.head;
                content_parent = base.content_head;
                merge_sources = [];
              })
              a content (inserting_body content) regular)

  unfoldable pub with_record : Base → NewRecord → GraphFields
  unfolding records_cbor
  with_record base new = record (fields_of g) {
    encoded_records = records_cbor base.kept ++ (new.1 ∷ []);
    head = new.0;
    content_head = new.0;
  }

  unfoldable pub without_record : Base → GraphFields
  unfolding records_cbor
  without_record base = record (fields_of g) {
    encoded_records = records_cbor base.kept;
    head = base.head;
    content_head = base.content_head;
  }

  unfoldable pub save_at :
      RevisionRecord → Attribution → Bytes → Bool → Bool → Outcome RevisionError Bytes
  unfolding base_of saved_record with_record without_record put_graph decoded
  save_at last a content regular discard = do
    base ← base_of g last
    if discard then decoded hash (put_graph (without_record base)) else (do
      new ← saved_record last base a content regular
      decoded hash (put_graph (with_record base new)))

  unfoldable pub save_content : Attribution → Bytes → Bool → Bool → Outcome RevisionError Bytes
  unfolding is_content last_record save_at
  save_content a content regular discard =
      invalid_when (ltb max_timestamp a.timestamp_ms || not (is_content default_limits content))
        (elim (last_record g.records) [
          | none ↦ fault
          | some last ↦
              invalid_when (discard && not last.provisional)
                (save_at last a content regular discard)
        ])
