-- ===== src/Graph/Parsed.antt =====
-- What `parse_slots` of src/format/revision_graph.cpp lets through.
use scpefe.Base.{
  Bool, List, [], arith, false, not, ok, suc, true, ℕ, ◌++◌, ◌+◌, ◌==◌, ◌||◌, ◌∷◌, ◌≡◌,
}
use scpefe.Cbor.Limits.{RevisionError, RevisionLimits, malformed_cbor}
use scpefe.Cbor.Reading.{>>=-eq-ok, Reader, fail_if}
use scpefe.Graph.Records.{RevisionSlot}
use scpefe.Graph.Slots.{fits, read_entry, read_slots}
use scpefe.Cbor.Reader

pub fail_if-ok :
    (b : Bool) (e : RevisionError) (r : Reader) {u : Unit {0}} {s : Reader}
    → fail_if b e r ≡ ok (u, s)
    → (b ≡ false) × (r ≡ s)
fail_if-ok true e r h = cc
fail_if-ok false e r h = ground arith

pub read_slots-suc :
    (limits : RevisionLimits) (left i count : ℕ) (recovery : Bool) (seen : List RevisionSlot)
    (r : Reader) {x : List RevisionSlot × Reader}
    → read_slots limits (suc left) i count recovery seen r ≡ ok x
    → (slot : RevisionSlot) × (t : Reader) × (fits i count recovery seen slot ≡ true)
      × (read_slots limits left (i + 1) count (recovery || slot.role == 2) (seen ++ (slot ∷ [])) t
          ≡ ok x)
unfolding read_slots
read_slots-suc limits left i count recovery seen r e =
    let (slot, t, e1, e2) = >>=-eq-ok (read_entry limits) _ r e in
    let good = not (fits i count recovery seen slot) in
    let (u, t', e3, e4) = >>=-eq-ok (fail_if good malformed_cbor) _ t e2 in
    (slot, t', ground (arith, (fail_if-ok good malformed_cbor t e3).0), e4)
