-- ===== src/Graph/Slots.antt =====
-- `read_id`, `read_slot`, `read_time`, `key`, `next_key`, `parse_slots`, `parse_owner` and
-- `parse_lease` of src/format/revision_graph.cpp.
use scpefe.Base.{
  Bool, Bytes, List, [], bytes_eq, false, if◌then◌else◌, is_empty, leb, ltb, not, suc, zero, ℕ,
  ◌&&◌, ◌++◌, ◌+◌, ◌-◌, ◌==◌, ◌^◌, ◌||◌, ◌∷◌,
}
use scpefe.Cbor.Limits.{RevisionLimits, malformed_cbor}
use scpefe.Cbor.Reader.{boolean, unsigned_integer}
use scpefe.Cbor.Reading.{Reads, fail_if, return, ◌>>=◌, ◌>>◌}
use scpefe.Graph.Records.{OwnerIdentity, RevisionId, RevisionLease, RevisionSlot}
use scpefe.Cbor.Reader

unfoldable pub read_id : RevisionLimits → Reads RevisionId
read_id limits = Reader.bytes limits 32 0

unfoldable pub read_slot : RevisionLimits → Reads Bytes
read_slot limits = Reader.bytes limits 16 0

unfoldable pub read_time : Reads ℕ
read_time = do
  value ← unsigned_integer
  fail_if (ltb (2 ^ 63 - 1) value) malformed_cbor
  return value

-- The new value of `previous` is returned.
unfoldable pub key : ℕ → ℕ → Reads ℕ
key previous expected = do
  found ← unsigned_integer
  fail_if (not (found == expected) || leb found previous) malformed_cbor
  return found

unfoldable pub next_key : ℕ → Reads ℕ
next_key previous = do
  found ← unsigned_integer
  fail_if (leb found previous) malformed_cbor
  return found

unfoldable pub has_id : Bytes → List RevisionSlot → Bool
has_id id [] = false
has_id id (slot ∷ slots) = bytes_eq slot.id id || has_id id slots

unfoldable pub has_management_id : Bytes → List RevisionSlot → Bool
has_management_id id [] = false
has_management_id id (slot ∷ slots) = bytes_eq slot.management_id id || has_management_id id slots

-- The fields of one slot.
unfoldable pub read_entry : RevisionLimits → Reads RevisionSlot
unfolding read_slot key
read_entry limits = do
  fields ← Reader.map limits 3
  fail_if (not (fields == 7)) malformed_cbor
  k1 ← key 0 1
  slot ← read_slot limits
  k2 ← key k1 2
  rights ← unsigned_integer
  k3 ← key k2 3
  claim ← boolean
  k4 ← key k3 4
  kind ← unsigned_integer
  k5 ← key k4 5
  management ← read_slot limits
  k6 ← key k5 6
  called ← Reader.text limits
  k7 ← key k6 7
  mail ← Reader.text limits
  return (record {
    id = slot;
    management_id = management;
    permissions = rights;
    role = kind;
    must_be_changed = claim;
    name = called;
    email = mail;
  })

-- The test of the slot at `i` of `count`, behind the slots `seen`; `recovery` if one of them is
-- the recovery slot.
unfoldable pub fits : ℕ → ℕ → Bool → List RevisionSlot → RevisionSlot → Bool
fits i count recovery seen slot = not (
    has_id slot.id seen
    || has_management_id slot.management_id seen
    || ltb 7 slot.permissions
    || ltb 2 slot.role
    || not (if i == 0 then slot.role == 0 else not (slot.role == 0))
    || (slot.role == 2 && (recovery || not (i + 1 == count)))
    || (slot.role == 1 && recovery)
    || (not (slot.role == 1) && not (slot.permissions == 7))
    || (not (slot.role == 1) && slot.must_be_changed)
    || (not (slot.role == 2)
        && (is_empty slot.name || (not slot.must_be_changed && is_empty slot.email))))

unfoldable pub read_slots :
    RevisionLimits → ℕ → ℕ → ℕ → Bool → List RevisionSlot → Reads (List RevisionSlot)
read_slots limits zero i count recovery seen = return seen
read_slots limits (suc left) i count recovery seen = do
  slot ← read_entry limits
  fail_if (not (fits i count recovery seen slot)) malformed_cbor
  read_slots limits left (i + 1) count (recovery || slot.role == 2) (seen ++ (slot ∷ []))

-- The owner of the result is its first slot.
unfoldable pub parse_slots : RevisionLimits → Reads (List RevisionSlot)
parse_slots limits = do
  count ← Reader.array limits 2
  fail_if (ltb count 1 || ltb 9 count) malformed_cbor
  read_slots limits count 0 count false []

unfoldable pub parse_owner : RevisionLimits → Reads OwnerIdentity
unfolding read_slot key
parse_owner limits = do
  fields ← Reader.map limits 2
  fail_if (not (fields == 3)) malformed_cbor
  k1 ← key 0 1
  slot ← read_slot limits
  k2 ← key k1 2
  called ← Reader.text limits
  k3 ← key k2 3
  mail ← Reader.text limits
  fail_if (is_empty called || is_empty mail) malformed_cbor
  return (record { id = slot; name = called; email = mail })

abbrev pub zero_session : Bytes
zero_session = 0 ∷ 0 ∷ 0 ∷ 0 ∷ 0 ∷ 0 ∷ 0 ∷ 0 ∷ 0 ∷ 0 ∷ 0 ∷ 0 ∷ 0 ∷ 0 ∷ 0 ∷ 0 ∷ []

unfoldable pub lease_fits : RevisionLease → Bool
lease_fits l = not (
    l.duration_ms == 0
    || ltb (2 ^ 63 - 1) l.duration_ms
    || (not l.active
        && (not (bytes_eq l.session_id zero_session)
            || not (is_empty l.holder_name)
            || not (is_empty l.holder_email)
            || not (is_empty l.device)))
    || (l.active
        && (bytes_eq l.session_id zero_session
            || is_empty l.holder_name
            || is_empty l.holder_email
            || is_empty l.device)))

unfoldable pub parse_lease : RevisionLimits → Reads RevisionLease
unfolding read_slot read_time key lease_fits
parse_lease limits = do
  fields ← Reader.map limits 2
  fail_if (not (fields == 8)) malformed_cbor
  k1 ← key 0 1
  held ← boolean
  k2 ← key k1 2
  session ← read_slot limits
  k3 ← key k2 3
  counter ← unsigned_integer
  k4 ← key k3 4
  utc ← read_time
  k5 ← key k4 5
  duration ← unsigned_integer
  k6 ← key k5 6
  called ← Reader.text limits
  k7 ← key k6 7
  mail ← Reader.text limits
  k8 ← key k7 8
  device_name ← Reader.text limits
  let lease : RevisionLease = record {
    session_id = session;
    heartbeat_counter = counter;
    holder_utc_ms = utc;
    duration_ms = duration;
    holder_name = called;
    holder_email = mail;
    device = device_name;
    active = held;
  }
  fail_if (not (lease_fits lease)) malformed_cbor
  return lease
