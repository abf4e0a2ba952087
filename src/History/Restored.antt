-- ===== src/History/Restored.antt =====
-- What `graph_fields` of src/format/revision_graph.cpp returned, part by part.
use mathlib.Core.Path.{subst}
use scpefe.Base.{
  All, Bool-cases, Bytes, List, Option, arith, inl, inr, length, ltb, not, ok, refl, some, true, ℕ,
  ◌&&◌, ◌-◌, ◌==◌, ◌^◌, ◌||◌, ◌≡◌, ◌≤◌,
}
use scpefe.Cbor.Items.{ReadsBack}
use scpefe.Cbor.Limits.{default_limits, limit_exceeded, malformed_cbor, unsupported_format}
use scpefe.Cbor.Locality.{take_bytes-eq}
use scpefe.Cbor.Reader.{collection, require_available, unsigned_integer}
use scpefe.Cbor.Reading.{>>=-eq-ok, Reader, Reads, checked-eq-ok}
use scpefe.Cbor.Returns.{>>=-Returns, Returns, any-Returns, checked-Returns, return-Returns}
use scpefe.Graph.Closure.{parse_lease_closed, parse_owner_closed, parse_slots_closed}
use scpefe.Graph.Locality.{IsLocal, IsLocal-IsClosed, captured-eq-ok}
use scpefe.Graph.Parsing.{captured}
use scpefe.Graph.Records.{OwnerIdentity, RevisionGraph, RevisionId, RevisionRecord}
use scpefe.Graph.Slots.{fits, key, parse_lease, parse_owner, parse_slots, read_id}
use scpefe.History.Closure.{read_extensions_closed, read_features_closed}
use scpefe.History.Decoding.{
  counted_records, graph_body, is_owner, last_field, read_extensions, read_features,
}
use scpefe.History.Restoring.{IsKept, read_records-IsKept}
use scpefe.Cbor.Reader

read_id-length :
    (r s : Reader) (id : RevisionId) → read_id default_limits r ≡ ok (id, s) → 32 ≡ length id
unfolding read_id Reader.bytes
read_id-length r s id e =
    let (size, t, e1, e2) = >>=-eq-ok (Reader.head 2) _ r e in
    let large = ltb default_limits.max_byte_string_bytes size in
    let (fits, e3) = checked-eq-ok large limit_exceeded _ t e2 in
    let (required, e4) = checked-eq-ok (not (size == 32)) malformed_cbor _ t e3 in
    let (u, v, e5, e6) = >>=-eq-ok (require_available size) _ t e4 in
    let (whole, rest) = take_bytes-eq size v s id e6 in ground (arith, whole)

array-count :
    (depth n : ℕ) (r s : Reader)
    → Reader.array default_limits depth r ≡ ok (n, s)
    → n ≤ default_limits.max_collection_entries
unfolding Reader.array collection
array-count depth n r s e =
    let deep = ltb default_limits.max_nesting_depth depth in
    let (shallow, e1) = checked-eq-ok deep limit_exceeded _ r e in
    let (count, t, e2, e3) = >>=-eq-ok (Reader.head 4) _ r e1 in
    let many = ltb default_limits.max_collection_entries count || ltb (2 ^ 64 - 1) count in
    let (few, e4) = checked-eq-ok many limit_exceeded _ t e3 in ground arith

-- Each part of a graph is read from the bytes that the graph keeps.
pub record IsRestorable (hash : Bytes → Bytes) (g : RevisionGraph) : Type 0 where
  pub slots : ReadsBack (parse_slots default_limits) g.slots_cbor g.slots
  pub owner :
      (owner : OwnerIdentity) × ReadsBack (parse_owner default_limits) g.owner_cbor owner
      × (is_owner owner g.slots ≡ true)
  pub lease : ReadsBack (parse_lease default_limits) g.lease_cbor g.lease
  pub records : All (IsKept hash) g.records
  pub count : (1 ≤ length g.records) × (length g.records ≤ default_limits.max_collection_entries)
  pub head : 32 ≡ length g.head
  pub content_head : 32 ≡ length g.content_head
  pub features : ReadsBack (read_features default_limits) g.features_cbor tt
  pub extensions :
      (c : Bytes) → g.extensions_cbor ≡ some c → ReadsBack (read_extensions default_limits) c tt
  pub limit : g.max_text_bytes ≡ default_limits.max_text_bytes

module _ (hash : Bytes → Bytes) where
  counted_records-IsKept :
      (r s : Reader) (xs : List RevisionRecord)
      → counted_records hash default_limits r ≡ ok (xs, s)
      → All (IsKept hash) xs × (1 ≤ length xs) × (length xs ≤ default_limits.max_collection_entries)
  unfolding counted_records
  counted_records-IsKept r s xs e =
      let (count, t, e1, e2) = >>=-eq-ok (Reader.array default_limits 2) _ r e in
      let (some_record, e3) = checked-eq-ok (count == 0) malformed_cbor _ t e2 in
      let (kept, size) = read_records-IsKept hash count t s xs e3 in
      let bound = array-count 2 count r t e1 in (kept, ground (arith, size), omega arith)

  last_field-reads :
      (fields previous : ℕ) (r s : Reader) (x : Option Bytes)
      → last_field hash default_limits fields previous r ≡ ok (x, s)
      → (c : Bytes) → x ≡ some c
      → ReadsBack (read_extensions default_limits) c tt
  unfolding last_field
  last_field-reads fields previous r s x e c q = elim (Bool-cases (fields == 9)) [
    | inr other ↦ absurd (ground arith)
    | inl nine ↦
        let (k, t, e1, e2) = >>=-eq-ok (key previous 9) _ r (rw nine at e) in
        let (found, u, e3, e4) = >>=-eq-ok (captured (read_extensions default_limits)) _ t e2 in
        let (whole, back) =
          captured-eq-ok (read_extensions default_limits) t u found.0 found.1
            (read_extensions_closed IsLocal IsLocal-IsClosed default_limits) e3 in
        let same : found.1 ≡ c = ground arith in
        subst (λ b. ReadsBack (read_extensions default_limits) b tt) same back
  ]

  counted_records-Returns : Returns (counted_records hash default_limits) (λ xs.
      All (IsKept hash) xs × (1 ≤ length xs) × (length xs ≤ default_limits.max_collection_entries))
  counted_records-Returns = record { holds = counted_records-IsKept }

  read_id-Returns : Returns (read_id default_limits) (λ id. 32 ≡ length id)
  read_id-Returns = record { holds = read_id-length }

  last_field-Returns :
      (fields previous : ℕ)
      → Returns
          (last_field hash default_limits fields previous)
          (λ x. (c : Bytes) → x ≡ some c → ReadsBack (read_extensions default_limits) c tt)
  last_field-Returns fields previous = record { holds = last_field-reads fields previous }

  -- What a field is captured from.
  captured_reads :
      {A : Type 0} (m : Reads A) → IsLocal A m → Returns (captured m) (λ a. ReadsBack m a.1 a.0)
  captured_reads m h = record { holds = λ r s a e. (captured-eq-ok m r s a.0 a.1 h e).1 }

  pub graph_body-IsRestorable : Returns (graph_body hash default_limits) (IsRestorable hash)
  unfolding graph_body
  graph_body-IsRestorable =
      let limits = default_limits in
      let closed = IsLocal-IsClosed in
      >>=-Returns _ (any-Returns (Reader.map limits 1)) λ fields any.
        checked-Returns (not (fields == 8) && not (fields == 9)) malformed_cbor λ sized.
          >>=-Returns _ (any-Returns (key 0 1)) λ k1 any.
            >>=-Returns _ (any-Returns unsigned_integer) λ version any.
              checked-Returns (not (version == 1)) unsupported_format λ supported.
                >>=-Returns _ (any-Returns (key k1 2)) λ k2 any.
                  >>=-Returns _
                    (captured_reads (parse_slots limits) (parse_slots_closed IsLocal closed limits))
                    λ slots slots_back. >>=-Returns _ (any-Returns (key k2 3)) λ k3 any.
                      >>=-Returns _
                        (captured_reads (parse_owner limits)
                          (parse_owner_closed IsLocal closed limits))
                        λ owner owner_back.
                          checked-Returns (not (is_owner owner.0 slots.0)) malformed_cbor
                            λ same_owner. >>=-Returns _ (any-Returns (key k3 4)) λ k4 any.
                              >>=-Returns _
                                (captured_reads (parse_lease limits)
                                  (parse_lease_closed IsLocal closed limits))
                                λ lease lease_back. >>=-Returns _ (any-Returns (key k4 5)) λ k5 any.
                                  >>=-Returns _ counted_records-Returns λ records kept.
                                    >>=-Returns _ (any-Returns (key k5 6)) λ k6 any.
                                      >>=-Returns _ read_id-Returns λ newest newest_size.
                                        >>=-Returns _ (any-Returns (key k6 7)) λ k7 any.
                                          >>=-Returns _ read_id-Returns λ text_head text_head_size.
                                            >>=-Returns _ (any-Returns (key k7 8)) λ k8 any.
                                              >>=-Returns _
                                                (captured_reads (read_features limits)
                                                  (read_features_closed IsLocal closed limits))
                                                λ features features_back.
                                                  >>=-Returns _ (last_field-Returns fields k8)
                                                    λ extensions extensions_back.
                                                      return-Returns (IsRestorable hash) _ (record {
                                                        slots = slots_back;
                                                        owner = (owner.0, owner_back, ground arith);
                                                        lease = lease_back;
                                                        records = kept.0;
                                                        count = (kept.1, kept.2);
                                                        head = newest_size;
                                                        content_head = text_head_size;
                                                        features = features_back;
                                                        extensions = extensions_back;
                                                        limit = refl;
                                                      })
