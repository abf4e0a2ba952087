-- ===== src/History/Saving.antt =====
-- `create_baseline`, `reconstruct` and `save_content` of src/format/revision_graph.cpp. `hash`
-- stands for `blake2b_256`.
use scpefe.Base.{
  Bool, Bytes, List, Option, Outcome, [], err, false, fault, get_elem?, if◌then◌else◌, is_empty,
  length, ltb, none, not, ok, some, suc, true, zero, ℕ, ◌&&◌, ◌++◌, ◌-◌, ◌^◌, ◌||◌, ◌∷◌,
}
use scpefe.Cbor.Limits.{RevisionError, default_limits, invalid_argument}
use scpefe.Cbor.Writer.{put_array, put_boolean, put_bytes, put_map, put_raw, put_unsigned, ◌▷◌}
use scpefe.Graph.Body.{body_prefix, id_prefix}
use scpefe.Graph.Content.{content_prefix, find_index, is_content, reconstruct_at}
use scpefe.Graph.Records.{RevisionGraph, RevisionId, RevisionLease, RevisionRecord, RevisionSlot}
use scpefe.Graph.Slots.{zero_session}
use scpefe.History.Bodies.{is_content_record}
use scpefe.History.Encoding.{
  Attribution, decoded, put_attribution, put_graph, put_lease, put_owner, put_slots,
}
use scpefe.History.Line.{is_kind}

abbrev pub max_timestamp : ℕ
max_timestamp = 2 ^ 63 - 1

abbrev pub invalid_when {ℓ} :
    {A : Type ℓ} → Bool → Outcome RevisionError A → Outcome RevisionError A
invalid_when b rest = if b then err invalid_argument else rest

unfoldable pub whole_body : Bytes → Bytes
whole_body content =
    [] ▷ put_array 3 ▷ put_unsigned 0 ▷ put_unsigned (length content) ▷ put_bytes content

-- A delta that inserts the whole content.
unfoldable pub inserting_body : Bytes → Bytes
inserting_body content =
    let start =
      []
      ▷ put_array 3
      ▷ put_unsigned 0
      ▷ put_unsigned (length content)
      ▷ put_array (if is_empty content then 0 else 1) in
    if is_empty content then start else start ▷ put_array 2 ▷ put_unsigned 1 ▷ put_bytes content

-- A record with its body.
unfoldable pub put_record : RevisionId → Bytes → ℕ → Bytes → Bool → Bytes
put_record id immutable storage body regular =
    let start =
      []
      ▷ put_map (if regular then 5 else 4)
      ▷ put_unsigned 1
      ▷ put_bytes id
      ▷ put_unsigned 2
      ▷ put_raw immutable
      ▷ put_unsigned 3
      ▷ put_unsigned storage
      ▷ put_unsigned 4
      ▷ put_raw body in
    if regular then start ▷ put_unsigned 5 ▷ put_boolean true else start

abbrev pub optional_slot : Option RevisionSlot → List RevisionSlot
optional_slot none = []
optional_slot (some slot) = slot ∷ []

abbrev pub unheld_lease : RevisionLease
unheld_lease = record {
  session_id = zero_session;
  heartbeat_counter = 0;
  holder_utc_ms = 0;
  duration_ms = 600000;
  holder_name = [];
  holder_email = [];
  device = [];
  active = false;
}

-- The attribution of a baseline: the owner is also the client.
abbrev pub owned : RevisionSlot → Bytes → ℕ → Attribution
owned owner device timestamp_ms = record {
  timestamp_ms = timestamp_ms;
  actor = owner;
  client_name = owner.name;
  client_email = owner.email;
  device = device;
}

unfoldable pub baseline_immutable : Attribution → RevisionId → RevisionId → Bytes
unfolding put_attribution
baseline_immutable a content_hash body_digest =
    []
    ▷ put_map 11
    ▷ put_unsigned 1
    ▷ put_unsigned 0
    ▷ put_unsigned 4
    ▷ put_array 0
    ▷ put_attribution a
    ▷ put_unsigned 12
    ▷ put_bytes content_hash
    ▷ put_unsigned 13
    ▷ put_bytes body_digest

module _ (hash : Bytes → Bytes) where
  unfoldable pub baseline : RevisionSlot → Option RevisionSlot → Bytes → Bytes → ℕ → Bytes
  unfolding whole_body baseline_immutable put_record put_slots put_owner put_lease put_graph
  baseline owner recovery device content timestamp_ms =
      let body = whole_body content in
      let immutable =
        baseline_immutable (owned owner device timestamp_ms) (hash (content_prefix ++ content))
          (hash (body_prefix ++ body)) in
      let head = hash (id_prefix ++ immutable) in
      put_graph (record {
        slots_cbor = [] ▷ put_slots (owner ∷ optional_slot recovery);
        owner_cbor = [] ▷ put_owner owner;
        lease_cbor = [] ▷ put_lease unheld_lease;
        encoded_records = put_record head immutable 1 body false ∷ [];
        head = head;
        content_head = head;
        features_cbor = [] ▷ put_array 0;
        extensions_cbor = none;
      })

  unfoldable pub create_baseline :
      RevisionSlot → Option RevisionSlot → Bytes → Bytes → ℕ → Outcome RevisionError Bytes
  unfolding is_content baseline decoded
  create_baseline owner recovery device content timestamp_ms =
      invalid_when (ltb max_timestamp timestamp_ms || not (is_content default_limits content))
        (decoded hash (baseline owner recovery device content timestamp_ms))

  -- The index of the content record before the first `n` records end.
  unfoldable pub content_before : List RevisionRecord → ℕ → Option ℕ
  content_before records zero = none
  content_before records (suc n) =
      let rest = content_before records n in
      elim (get_elem? records n) [
        | none ↦ rest
        | some r ↦ if is_content_record r then some n else rest
      ]

  -- Of the limits that the source passes on, only `max_text_bytes` is read.
  abbrev pub reconstructed : RevisionGraph → ℕ → Outcome RevisionError (Option Bytes)
  reconstructed g i =
      reconstruct_at hash (record default_limits { max_text_bytes = g.max_text_bytes }) g.records i

  -- The event at `i` has the content before it.
  unfoldable pub reconstruct : RevisionGraph → RevisionId → Outcome RevisionError (Option Bytes)
  unfolding find_index content_before
  reconstruct g id = elim (find_index id g.records) [
    | none ↦ ok none
    | some i ↦ elim (get_elem? g.records i) [
      | none ↦ fault
      | some r ↦
          if is_kind r 2 && not r.foreign
          then elim (content_before g.records i) [ none ↦ ok none | some j ↦ reconstructed g j ]
          else reconstructed g i
    ]
  ]
