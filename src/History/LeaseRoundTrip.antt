-- ===== src/History/LeaseRoundTrip.antt =====
-- The lease that `replace_lease` of src/format/revision_graph.cpp writes is the one that
-- `parse_lease` reads.
use scpefe.Base.{
  Bytes, ap, arith, false, inr, leb, length, ltb, not, refl, true, ℕ, ◌+◌, ◌-◌, ◌<◌, ◌==◌, ◌^◌,
  ◌||◌, ◌≡◌, ◌≤◌,
}
use scpefe.Cbor.Encodes.{
  >>=-Encodes, Encodes, boolean-Encodes, bytes-Encodes, checked-Encodes, map-Encodes,
  return-Encodes, text-Encodes, unsigned-Encodes,
}
use scpefe.Cbor.Limits.{default_limits, malformed_cbor}
use scpefe.Cbor.Reader.{text}
use scpefe.Cbor.Writer.{put_bytes, put_text, put_unsigned}
use scpefe.Graph.Records.{RevisionLease}
use scpefe.Graph.Slots.{key, lease_fits, parse_lease, read_slot, read_time}
use scpefe.History.Encoding.{put_lease}
use scpefe.Text.{valid_utf8}
use scpefe.Cbor.Reader

-- A text that the writer takes.

abbrev pub IsWritable : Bytes → Type 0
IsWritable text = (length text ≤ default_limits.max_text_bytes) × (valid_utf8 text ≡ true)

-- The types of the fields of a lease, and the rules of the decoder.
pub record IsEncodable (lease : RevisionLease) : Type 0 where
  pub session : 16 ≡ length lease.session_id
  pub counter : lease.heartbeat_counter < 2 ^ 64
  pub utc : lease.holder_utc_ms ≤ 2 ^ 63 - 1
  pub name : IsWritable lease.holder_name
  pub email : IsWritable lease.holder_email
  pub device : IsWritable lease.device
  pub fits : lease_fits lease ≡ true

pub key-Encodes :
    (previous expected : ℕ)
    → previous < expected
    → expected < 2 ^ 64
    → Encodes (key previous expected) (put_unsigned expected) expected
unfolding key
key-Encodes previous expected h k =
    let passes : (not (expected == expected) || leb expected previous) ≡ false = ground arith in
    >>=-Encodes _ (unsigned-Encodes expected k) (checked-Encodes _ passes (return-Encodes expected))

pub slot-Encodes :
    (id : Bytes) → 16 ≡ length id → Encodes (read_slot default_limits) (put_bytes id) id
unfolding read_slot
slot-Encodes id h = bytes-Encodes default_limits 16 0 id (omega arith) (omega arith) (inr h)

pub writable-Encodes :
    (v : Bytes) → IsWritable v → Encodes (Reader.text default_limits) (put_text v) v
writable-Encodes v h = text-Encodes default_limits v (omega arith) h.0 h.1

time-Encodes : (v : ℕ) → v ≤ 2 ^ 63 - 1 → Encodes read_time (put_unsigned v) v
unfolding read_time
time-Encodes v h =
    let passes : ltb (2 ^ 63 - 1) v ≡ false = ground arith in
    >>=-Encodes _ (unsigned-Encodes v (omega arith)) (checked-Encodes _ passes (return-Encodes v))

duration_bound : (lease : RevisionLease) → lease_fits lease ≡ true → lease.duration_ms < 2 ^ 64
unfolding lease_fits
duration_bound lease h = ground arith

-- The lease is read back wherever it stands.
pub parse_lease-put_lease :
    (lease : RevisionLease)
    → IsEncodable lease
    → Encodes (parse_lease default_limits) (put_lease lease) lease
unfolding parse_lease put_lease
parse_lease-put_lease lease h =
    let keyed : (i : ℕ) → i < 9 → Encodes (key i (i + 1)) (put_unsigned (i + 1)) (i + 1) =
      λ i l. key-Encodes i (i + 1) (omega arith) (omega arith) in
    >>=-Encodes _ (map-Encodes default_limits 2 8 (omega arith) (omega arith) (omega arith)) (
      checked-Encodes malformed_cbor refl (
        >>=-Encodes _ (keyed 0 (omega arith)) (
          >>=-Encodes _ (boolean-Encodes lease.active) (
            >>=-Encodes _ (keyed 1 (omega arith)) (
              >>=-Encodes _ (slot-Encodes lease.session_id h.session) (
                >>=-Encodes _ (keyed 2 (omega arith)) (
                  >>=-Encodes _ (unsigned-Encodes lease.heartbeat_counter h.counter) (
                    >>=-Encodes _ (keyed 3 (omega arith)) (
                      >>=-Encodes _ (time-Encodes lease.holder_utc_ms h.utc) (
                        >>=-Encodes _ (keyed 4 (omega arith)) (
                          >>=-Encodes _
                            (unsigned-Encodes lease.duration_ms (duration_bound lease h.fits))
                            (>>=-Encodes _ (keyed 5 (omega arith)) (
                              >>=-Encodes _ (writable-Encodes lease.holder_name h.name) (
                                >>=-Encodes _ (keyed 6 (omega arith)) (
                                  >>=-Encodes _ (writable-Encodes lease.holder_email h.email) (
                                    >>=-Encodes _ (keyed 7 (omega arith)) (
                                      >>=-Encodes _ (writable-Encodes lease.device h.device) (
                                        checked-Encodes _ (ap not h.fits)
                                          (return-Encodes lease)))))))))))))))))))
