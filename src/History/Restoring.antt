-- ===== src/History/Restoring.antt =====
-- What `decode` of src/format/revision_graph.cpp read of a graph is read again from the bytes that
-- the graph keeps.
use mathlib.Core.Path.{subst}
use scpefe.Base.{All, Bytes, List, [], ap, arith, length, ok, refl, suc, zero, ℕ, ◌∷◌, ◌≡◌}
use scpefe.Cbor.Encodes.{>>=-Encodes, Encodes, raw-Encodes, return-Encodes}
use scpefe.Cbor.Items.{ReadsBack}
use scpefe.Cbor.Limits.{default_limits}
use scpefe.Cbor.Reading.{>>=-eq-ok, Reader}
use scpefe.Cbor.Writer.{put_raw}
use scpefe.Graph.Body.{parse_record, record_fields}
use scpefe.Graph.Locality.{IsLocal, IsLocal-IsClosed, captured-eq-ok, captured_back}
use scpefe.Graph.Parsing.{captured}
use scpefe.Graph.RecordClosure.{record_fields_closed}
use scpefe.Graph.Records.{RevisionRecord}
use scpefe.History.Decoding.{read_records}

-- A record with the bytes that it was read from.
module _ (hash : Bytes → Bytes) where
  abbrev pub IsKept : RevisionRecord → Type 0
  IsKept r = ReadsBack (parse_record hash default_limits) r.record_cbor r

  IsKept-fields :
      (c : Bytes) (x : RevisionRecord)
      → ReadsBack (record_fields hash default_limits) c x
      → IsKept (record x { record_cbor = c })
  unfolding parse_record
  IsKept-fields c x back =
      let again = captured_back (record_fields hash default_limits) c x back in
      let read : Encodes (parse_record hash default_limits) (put_raw c)
          (record x { record_cbor = c }) =
        >>=-Encodes _ (raw-Encodes (captured (record_fields hash default_limits)) c (x, c) again)
          (return-Encodes (record x { record_cbor = c })) in
      read.reads

  parse_record-IsKept :
      (r s : Reader) (x : RevisionRecord)
      → parse_record hash default_limits r ≡ ok (x, s)
      → IsKept x
  unfolding parse_record
  parse_record-IsKept r s x e =
      let (found, t, e1, e2) = >>=-eq-ok (captured (record_fields hash default_limits)) _ r e in
      let (q, back) =
        captured-eq-ok (record_fields hash default_limits) r t found.0 found.1
          (record_fields_closed IsLocal IsLocal-IsClosed hash default_limits) e1 in
      let same : record found.0 { record_cbor = found.1 } ≡ x = ground arith in
      subst IsKept same (IsKept-fields found.1 found.0 back)

  pub read_records-IsKept :
      (n : ℕ) (r s : Reader) (xs : List RevisionRecord)
      → read_records hash default_limits n r ≡ ok (xs, s)
      → All IsKept xs × (length xs ≡ n)
  unfolding read_records
  read_records-IsKept zero r s xs e =
      let same : [] ≡ xs = ground arith in
      subst (λ ys. All IsKept ys × (length ys ≡ 0)) same (tt, refl)
  read_records-IsKept (suc n) r s xs e =
      let (x, t, e1, e2) = >>=-eq-ok (parse_record hash default_limits) _ r e in
      let (ys, u, e3, e4) = >>=-eq-ok (read_records hash default_limits n) _ t e2 in
      let (kept, size) = read_records-IsKept n t u ys e3 in
      let first = parse_record-IsKept r t x e1 in
      let same : xs ≡ x ∷ ys = ground arith in rw same ((first, kept), ap suc size)
