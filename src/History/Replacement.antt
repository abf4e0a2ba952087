-- ===== src/History/Replacement.antt =====
-- `replace_lease` of src/format/revision_graph.cpp and `decode` of what it returns.
use mathlib.Core.List.{append-nil}
use mathlib.Core.Path.{subst}
use scpefe.Base.{
  Bytes, List, Option, Outcome-cases, [], ap, arith, false, inl, inr, is_empty, length, none, ok,
  refl, sym, ℕ, ◌+◌, ◌∷◌, ◌≡◌, ◌≢◌, ◌≤◌,
}
use scpefe.Cbor.Items.{ReadsBack}
use scpefe.Cbor.Limits.{default_limits}
use scpefe.Cbor.Reader.{bytes, collection, finished, head, require_available}
use scpefe.Cbor.Reading.{Reader, at}
use scpefe.Cbor.Returns.{>>=-Returns, Returns, any-Returns, return-Returns}
use scpefe.Graph.Records.{RevisionGraph, RevisionId, RevisionLease, RevisionRecord}
use scpefe.Graph.Slots.{fits}
use scpefe.History.Bodies.{body_step, check_bodies, flagged}
use scpefe.History.Decoding.{decode, graph_body, graph_fields, read_end, validated}
use scpefe.History.Encoding.{decoded, fields_of, put_graph, put_lease, records_cbor, replace_lease}
use scpefe.History.LeaseRoundTrip.{IsEncodable, parse_lease-put_lease}
use scpefe.History.Reencoded.{graph_body-put_graph}
use scpefe.History.Restored.{IsRestorable, graph_body-IsRestorable}
use scpefe.History.Validation.{validate_graph}
use scpefe.Cbor.Reader

-- A graph with another lease.
abbrev pub leased : RevisionGraph → RevisionLease → RevisionGraph
leased g lease =
    let bytes = put_lease lease [] in
    record g {
      lease = lease;
      lease_cbor = bytes;
      encoded = put_graph (record (fields_of g) { lease_cbor = bytes });
    }

module _ (hash : Bytes → Bytes) where
  record_cbor-flagged :
      (r : RevisionRecord) (current : Option Bytes)
      → (flagged r current).record_cbor ≡ r.record_cbor
  record_cbor-flagged r current = ground arith

  records_cbor-check_bodies :
      (current : Option Bytes) (rs : List RevisionRecord)
      {checked : List RevisionRecord × Option Bytes}
      → check_bodies hash default_limits current rs ≡ ok checked
      → records_cbor checked.0 ≡ records_cbor rs
  unfolding check_bodies records_cbor
  records_cbor-check_bodies current [] e = ground arith
  records_cbor-check_bodies current (r ∷ rs) {checked} e =
      elim (Outcome-cases (body_step hash default_limits current r)) [
        | inr failed ↦ absurd (ground arith)
        | inl (next, p) ↦ elim (Outcome-cases (check_bodies hash default_limits next rs)) [
          | inr failed ↦ absurd (ground arith)
          | inl (rest, q) ↦
              let same : checked ≡ (flagged r next ∷ rest.0, rest.1) = ground arith in
              let behind = records_cbor-check_bodies next rs q in
              rw (same, behind, record_cbor-flagged r next) refl
        ]
      ]

  records_cbor-validate_graph :
      (rs : List RevisionRecord) (newest text_head : RevisionId) {checked : List RevisionRecord}
      → validate_graph hash default_limits rs newest text_head ≡ ok checked
      → records_cbor checked ≡ records_cbor rs
  unfolding validate_graph
  records_cbor-validate_graph rs newest text_head {checked} e =
      elim (Outcome-cases (check_bodies hash default_limits none rs)) [
        | inr failed ↦ absurd (ground arith)
        | inl (rest, q) ↦
            let same : checked ≡ rest.0 = ground arith in
            rw same (records_cbor-check_bodies none rs q)
      ]

  graph_fields-IsRestorable : Returns (graph_fields hash default_limits) (IsRestorable hash)
  unfolding graph_fields
  graph_fields-IsRestorable =
      >>=-Returns _ (graph_body-IsRestorable hash)
        λ g h. >>=-Returns _ (any-Returns read_end) λ u any. return-Returns (IsRestorable hash) g h

  decode-eq-ok :
      (input : Bytes) (g : RevisionGraph)
      → decode hash default_limits input ≡ ok g
      → (read : RevisionGraph) × (checked : List RevisionRecord) × IsRestorable hash read
        × (validate_graph hash default_limits read.records read.head read.content_head ≡ ok checked)
        × (g ≡ record read { records = checked; encoded = input })
  unfolding decode validated
  decode-eq-ok input g e = elim (Outcome-cases (graph_fields hash default_limits (at input 0))) [
    | inr failed ↦ absurd (ground arith)
    | inl ((read, r), q) ↦
        elim (Outcome-cases
          (validate_graph hash default_limits read.records read.head read.content_head)) [
            | inr failed ↦ absurd (ground arith)
            | inl (checked, v) ↦
                let restorable = graph_fields-IsRestorable.holds (at input 0) r read q in
                (read, checked, restorable, v, ground arith)
          ]
  ]

  nothing_read : (x : RevisionGraph × Reader) → graph_fields hash default_limits (at [] 0) ≢ ok x
  unfolding graph_fields graph_body Reader.map Reader.head collection require_available
  nothing_read x e = cc

  not_empty :
      (input : Bytes) (x : RevisionGraph × Reader)
      → graph_fields hash default_limits (at input 0) ≡ ok x
      → is_empty input ≡ false
  not_empty [] x e = absurd (nothing_read x e)
  not_empty (b ∷ bs) x e = refl

  whole_input :
      (input : Bytes) (g : RevisionGraph)
      → ReadsBack (graph_body hash default_limits) input g
      → graph_fields hash default_limits (at input 0) ≡ ok (g, at [] (0 + length input))
  unfolding graph_fields read_end finished
  whole_input input g back = let read = rw (append-nil input) at (back [] 0) in ground (arith, read)

  pub decode-put_graph :
      (g : RevisionGraph) (checked : List RevisionRecord)
      → IsRestorable hash g
      → validate_graph hash default_limits g.records g.head g.content_head ≡ ok checked
      → length (put_graph (fields_of g)) ≤ default_limits.max_input_bytes
      → decode hash default_limits (put_graph (fields_of g))
        ≡ ok (record g {
          records = checked;
          encoded = put_graph (fields_of g);
          max_text_bytes = default_limits.max_text_bytes;
        })
  unfolding decode validated
  decode-put_graph g checked h valid fits =
      let output = put_graph (fields_of g) in
      let read = whole_input output _ (graph_body-put_graph hash g h) in
      let filled = not_empty output _ read in ground (arith, read, filled)

  replaced-IsRestorable :
      (g : RevisionGraph) (lease : RevisionLease)
      → IsRestorable hash g
      → IsEncodable lease
      → IsRestorable hash (record g { lease = lease; lease_cbor = put_lease lease [] })
  replaced-IsRestorable g lease h e = record {
    slots = h.slots;
    owner = h.owner;
    lease = (parse_lease-put_lease lease e).reads;
    records = h.records;
    count = h.count;
    head = h.head;
    content_head = h.content_head;
    features = h.features;
    extensions = h.extensions;
    limit = h.limit;
  }

  replaced_decode :
      (input : Bytes) (read : RevisionGraph) (checked : List RevisionRecord) (lease : RevisionLease)
      → IsRestorable hash read
      → validate_graph hash default_limits read.records read.head read.content_head ≡ ok checked
      → IsEncodable lease
      → (let new = leased (record read { records = checked; encoded = input }) lease in
          length new.encoded ≤ default_limits.max_input_bytes
          → decode hash default_limits new.encoded ≡ ok new)
  replaced_decode input read checked lease restorable valid h fits =
      let new = record read { lease = lease; lease_cbor = put_lease lease [] } in
      let kept = records_cbor-validate_graph read.records read.head read.content_head valid in
      let same : put_graph (fields_of new)
          ≡ put_graph (record (fields_of new) { encoded_records = records_cbor checked }) =
        ap (λ rs. put_graph (record (fields_of new) { encoded_records = rs })) (sym kept) in
      let again =
        decode-put_graph new checked (replaced-IsRestorable read lease restorable h) valid
          (subst (λ bs. length bs ≤ default_limits.max_input_bytes) (sym same) fits) in
      let decodes : (max : ℕ)
          → max ≡ default_limits.max_text_bytes
          → decode hash default_limits
              (put_graph (record (fields_of new) { encoded_records = records_cbor checked }))
            ≡ ok (record new {
              records = checked;
              encoded =
                  put_graph (record (fields_of new) { encoded_records = records_cbor checked });
              max_text_bytes = max;
            }) =
        λ max limit.
          subst
            (λ bs.
              decode hash default_limits bs
              ≡ ok (record new { records = checked; encoded = bs; max_text_bytes = max }))
            same (rw limit again) in
      decodes read.max_text_bytes restorable.limit

  -- A graph that was decoded, and whose lease is replaced by one that the decoder accepts, decodes
  -- to the same graph but for the lease and the bytes of it, as long as its encoding stays within
  -- the limit of the input.
  pub replace_lease-decode :
      (input : Bytes) (g : RevisionGraph) (lease : RevisionLease)
      → decode hash default_limits input ≡ ok g
      → IsEncodable lease
      → length (leased g lease).encoded ≤ default_limits.max_input_bytes
      → (replace_lease hash g lease ≡ ok (leased g lease).encoded)
        × (decode hash default_limits (leased g lease).encoded ≡ ok (leased g lease))
  unfolding replace_lease decoded
  replace_lease-decode input g lease e h fits =
      let (read, checked, restorable, valid, same) = decode-eq-ok input g e in
      let again =
        replaced_decode input read checked lease restorable valid h (
          subst (λ x. length (leased x lease).encoded ≤ default_limits.max_input_bytes) same
            fits) in
      let decodes =
        subst (λ x. decode hash default_limits (leased x lease).encoded ≡ ok (leased x lease))
          (sym same) again in
      (ground (arith, decodes), decodes)
