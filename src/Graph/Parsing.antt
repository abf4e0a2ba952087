-- ===== src/Graph/Parsing.antt =====
-- `parse_event_details` and the loop and tests of `parse_immutable` of
-- src/format/revision_graph.cpp: the immutable fields.
use scpefe.Base.{
  Bool, Bytes, List, Option, [], bytes_eq, err, false, fault, if◌then◌else◌, is_empty, ltb, none,
  not, ok, some, suc, take, true, zero, ℕ, ◌&&◌, ◌++◌, ◌-◌, ◌==◌, ◌||◌, ◌∷◌,
}
use scpefe.Cbor.Limits.{RevisionLimits, limit_exceeded, malformed_cbor, unsupported_format}
use scpefe.Cbor.Reader.{unsigned_integer}
use scpefe.Cbor.Reading.{Reads, fail, fail_if, return, ◌>>=◌, ◌>>◌}
use scpefe.Graph.Records.{EventFacts, Immutable, RevisionId, no_facts, no_fields}
use scpefe.Graph.Slots.{next_key, read_id, read_slot, read_time}
use scpefe.Cbor.Reader

-- `m` with the bytes from the position before it to the position behind it.
unfoldable pub captured {ℓ} : {A : Type ℓ} → Reads A → Reads (A × Bytes)
captured m r = elim (m r) [
  | ok (a, s) ↦ ok ((a, take (s.position - r.position) r.rest), s)
  | err e ↦ err e
  | fault ↦ fault
]

-- The values of a map: `value k x` reads the value of key `k` into `x`.
unfoldable pub read_fields {ℓ} : {A : Type ℓ} → (ℕ → A → Reads A) → ℕ → ℕ → A → Reads A
unfolding next_key
read_fields value zero previous x = return x
read_fields value (suc n) previous x = do
  k ← next_key previous
  y ← value k x
  read_fields value n k y

abbrev pub set {ℓ κ} : {A : Type ℓ} {B : Type κ} → Reads A → (A → B) → Reads B
set m f = do a ← m; return (f a)

unfoldable pub read_status : Reads ℕ
read_status = do status ← unsigned_integer; fail_if (ltb 2 status) malformed_cbor; return status

unfoldable pub event_field : RevisionLimits → ℕ → EventFacts → Reads EventFacts
unfolding read_id read_slot read_status
event_field limits k facts =
    if k == 1
    then set (read_slot limits) (λ v. record facts { affected_slot = some v })
    else if k == 2
    then set (read_id limits) (λ v. record facts { cutoff = some v })
    else if k == 3
    then set unsigned_integer (λ v. record facts { retained = some v })
    else if k == 4
    then set read_status (λ v. record facts { activity_status = some v })
    else if k == 5
    then set (Reader.text limits) (λ v. record facts { detail = v })
    else fail unsupported_format

unfoldable pub parse_event_details : RevisionLimits → Reads EventFacts
unfolding read_fields event_field
parse_event_details limits = do
  count ← Reader.map limits 4
  read_fields (event_field limits) count 0 no_facts

-- `id <= last` on two ids of the same size.
unfoldable pub bytes_leb : Bytes → Bytes → Bool
bytes_leb [] ys = true
bytes_leb (x ∷ xs) [] = false
bytes_leb (x ∷ xs) (y ∷ ys) = ltb x y || (x == y && bytes_leb xs ys)

abbrev last_source : List RevisionId → Option RevisionId
last_source [] = none
last_source (x ∷ []) = some x
last_source (x ∷ y ∷ rest) = last_source (y ∷ rest)

abbrev rises : Option RevisionId → RevisionId → Bool
rises none id = true
rises (some last) id = not (bytes_leb id last)

unfoldable pub read_sources : RevisionLimits → ℕ → List RevisionId → Reads (List RevisionId)
unfolding read_id
read_sources limits zero sources = return sources
read_sources limits (suc n) sources = do
  id ← read_id limits
  fail_if (not (rises (last_source sources) id)) malformed_cbor
  read_sources limits n (sources ++ (id ∷ []))

unfoldable pub merge_sources : RevisionLimits → Reads (List RevisionId)
unfolding read_sources
merge_sources limits = do
  size ← Reader.array limits 5
  fail_if (ltb limits.max_parent_count size) limit_exceeded
  read_sources limits size []

unfoldable pub read_kind : Reads ℕ
read_kind = do value ← unsigned_integer; fail_if (ltb 2 value) unsupported_format; return value

unfoldable pub immutable_field : RevisionLimits → ℕ → Immutable → Reads Immutable
unfolding read_id read_slot read_time read_kind merge_sources parse_event_details captured
immutable_field limits k x =
    if k == 1
    then set read_kind (λ v. record x { kind = some v })
    else if k == 2
    then set (read_id limits) (λ v. record x { previous = some v })
    else if k == 3
    then set (read_id limits) (λ v. record x { content_parent = some v })
    else if k == 4
    then set (merge_sources limits) (λ v. record x { merge_sources = some v })
    else if k == 5
    then set read_time (λ v. record x { timestamp_ms = some v })
    else if k == 6
    then set (read_slot limits) (λ v. record x { actor_slot = some v })
    else if k == 7
    then set (Reader.text limits) (λ v. record x { actor_name = some v })
    else if k == 8
    then set (Reader.text limits) (λ v. record x { actor_email = some v })
    else if k == 9
    then set (Reader.text limits) (λ v. record x { client_name = some v })
    else if k == 10
    then set (Reader.text limits) (λ v. record x { client_email = some v })
    else if k == 11
    then set (Reader.text limits) (λ v. record x { device = some v })
    else if k == 12
    then set (read_id limits) (λ v. record x { content_hash = some v })
    else if k == 13
    then set (read_id limits) (λ v. record x { body_digest = some v })
    else if k == 14
    then set (Reader.text limits) (λ v. record x { event_type = some v })
    else if k == 15
    then set (captured (parse_event_details limits)) (λ v. record x { event_details = some v })
    else fail unsupported_format

abbrev pub has {ℓ} : {A : Type ℓ} → Option A → Bool
has none = false
has (some a) = true

-- The field is there and not empty.
abbrev pub has_text : Option Bytes → Bool
has_text none = false
has_text (some v) = not (is_empty v)

abbrev pub no_sources : Option (List RevisionId) → Bool
no_sources (some (x ∷ xs)) = false
no_sources _ = true

abbrev pub is_number : Option ℕ → ℕ → Bool
is_number none n = false
is_number (some m) n = m == n

-- "compaction"
abbrev pub compaction : Bytes
compaction = 0x63 ∷ 0x6f ∷ 0x6d ∷ 0x70 ∷ 0x61 ∷ 0x63 ∷ 0x74 ∷ 0x69 ∷ 0x6f ∷ 0x6e ∷ []

abbrev pub is_compaction : Option Bytes → Bool
is_compaction none = false
is_compaction (some v) = bytes_eq v compaction

abbrev bounds_compaction : Option (EventFacts × Bytes) → Bool
bounds_compaction none = false
bounds_compaction (some (facts, encoded)) = has facts.cutoff && has facts.retained

-- The tests behind the loop of `parse_immutable`.
unfoldable pub immutable_fits : Immutable → Bool
immutable_fits x =
    has x.kind
    && has x.merge_sources
    && has x.timestamp_ms
    && has x.actor_slot
    && has_text x.actor_name
    && has_text x.actor_email
    && has_text x.client_name
    && has_text x.client_email
    && has_text x.device
    && has x.content_hash
    && (if is_number x.kind 0
        then not (has x.previous)
          && not (has x.content_parent)
          && no_sources x.merge_sources
          && has x.body_digest
          && not (has x.event_type)
          && not (has x.event_details)
        else if is_number x.kind 1
        then has x.previous
          && has x.content_parent
          && has x.body_digest
          && not (has x.event_type)
          && not (has x.event_details)
        else has x.previous
          && not (has x.content_parent)
          && not (has x.body_digest)
          && no_sources x.merge_sources
          && has_text x.event_type
          && has x.event_details)
    && (not (is_compaction x.event_type) || bounds_compaction x.event_details)

unfoldable pub immutable_fields : RevisionLimits → Reads Immutable
unfolding read_fields immutable_field immutable_fits
immutable_fields limits = do
  count ← Reader.map limits 4
  fail_if (ltb count 10 || ltb 15 count) malformed_cbor
  x ← read_fields (immutable_field limits) count 0 no_fields
  fail_if (not (immutable_fits x)) malformed_cbor
  return x
