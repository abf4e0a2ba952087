-- ===== src/Snapshot/Required.antt =====
-- The fields 1 to 11 of `encode` and `decode` in src/format/snapshot_revision.cpp.
use scpefe.Base.{
  Bytes, [], arith, false, length, not, refl, true, ℕ, ◌<◌, ◌==◌, ◌^◌, ◌||◌, ◌≡◌, ◌≤◌,
}
use scpefe.Cbor.Encodes.{
  >>=-Encodes, Encodes, checked-Encodes, map-Encodes, return-Encodes, unsigned-Encodes,
}
use scpefe.Cbor.Limits.{default_limits, malformed_cbor, unsupported_format}
use scpefe.Cbor.Reader.{expect_unsigned}
use scpefe.Cbor.Writer.{put_map, put_text, put_unsigned, ◌▷◌}
use scpefe.Snapshot.Data.{SnapshotData}
use scpefe.Snapshot.Decoding.{read_content, read_required}
use scpefe.Snapshot.Encoding.{put_required}
use scpefe.Snapshot.Parts.{
  AreIds, expect-Encodes, fixed-Encodes, read_parents-Encodes, text-fits-Encodes,
}
use scpefe.Text.{valid_canonical_document_text, valid_utf8}
use scpefe.Cbor.Reader

abbrev pub IsTextField : Bytes → Type 0
IsTextField v = (length v ≤ default_limits.max_text_bytes) × (valid_utf8 v ≡ true)

-- What the required fields are to be, that `decode` takes them.
pub record HasRequired (d : SnapshotData) : Type 0 where
  pub parents : AreIds d.parent_revision_ids
  pub time : d.timestamp_ms < 2 ^ 64
  pub slot : 16 ≡ length d.slot_id
  pub slot_name : IsTextField d.slot_identity_name
  pub slot_email : IsTextField d.slot_identity_email
  pub client_name : IsTextField d.client_profile_name
  pub client_email : IsTextField d.client_profile_email
  pub device : IsTextField d.device_name
  pub hash : 32 ≡ length d.content_hash
  pub content :
      (length d.content ≤ default_limits.max_text_bytes)
      × (valid_canonical_document_text d.content ≡ true)

field-Encodes : (v : Bytes) → IsTextField v → Encodes (Reader.text default_limits) (put_text v) v
field-Encodes v h = text-fits-Encodes v h.0 h.1

utf8_of_content : (v : Bytes) → valid_canonical_document_text v ≡ true → valid_utf8 v ≡ true
unfolding valid_canonical_document_text
utf8_of_content v h = ground arith

read_content-Encodes :
    (content : Bytes)
    → length content ≤ default_limits.max_text_bytes
    → valid_canonical_document_text content ≡ true
    → Encodes
        (read_content default_limits)
        (λ output.
          output
          ▷ put_map 3
          ▷ put_unsigned 1
          ▷ put_unsigned 0
          ▷ put_unsigned 2
          ▷ put_unsigned (length content)
          ▷ put_unsigned 3
          ▷ put_text content)
        content
unfolding read_content
read_content-Encodes content h valid =
    let passes : (not (length content == length content)
          || not (valid_canonical_document_text content))
        ≡ false =
      ground (arith, valid) in
    >>=-Encodes _ (map-Encodes default_limits 2 3 (omega arith) (omega arith) (omega arith)) (
      checked-Encodes malformed_cbor refl (
        >>=-Encodes _ (expect-Encodes 1 (omega arith)) (
          >>=-Encodes _ (unsigned-Encodes 0 (omega arith)) (
            checked-Encodes unsupported_format refl (
              >>=-Encodes _ (expect-Encodes 2 (omega arith)) (
                >>=-Encodes _ (unsigned-Encodes (length content) (omega arith)) (
                  >>=-Encodes _ (expect-Encodes 3 (omega arith)) (
                    >>=-Encodes _ (text-fits-Encodes content h (utf8_of_content content valid))
                      (checked-Encodes malformed_cbor passes (return-Encodes content))))))))))

-- The data before an optional field is read.
abbrev pub required_of : SnapshotData → SnapshotData
required_of d = record d {
  ancestor_graph = [];
  manually_sealed = true;
  provisional_base_revision = [];
  event_type = [];
  event_detail = [];
}

pub read_required-put_required :
    (d : SnapshotData)
    → HasRequired d
    → Encodes (read_required default_limits) (put_required d) (required_of d)
unfolding read_required put_required
read_required-put_required d h =
    let number : (k : ℕ) → k < 12 → Encodes (expect_unsigned k) (put_unsigned k) tt =
      λ k l. expect-Encodes k (omega arith) in
    >>=-Encodes _ (number 1 (omega arith)) (
      >>=-Encodes _ (unsigned-Encodes 1 (omega arith)) (
        checked-Encodes unsupported_format refl (
          >>=-Encodes _ (number 2 (omega arith)) (
            >>=-Encodes _ (read_parents-Encodes 2 d.parent_revision_ids (omega arith) h.parents) (
              >>=-Encodes _ (number 3 (omega arith)) (
                >>=-Encodes _ (unsigned-Encodes d.timestamp_ms h.time) (
                  >>=-Encodes _ (number 4 (omega arith)) (
                    >>=-Encodes _ (fixed-Encodes 16 d.slot_id h.slot (omega arith)) (
                      >>=-Encodes _ (number 5 (omega arith)) (
                        >>=-Encodes _ (field-Encodes d.slot_identity_name h.slot_name) (
                          >>=-Encodes _ (number 6 (omega arith)) (
                            >>=-Encodes _ (field-Encodes d.slot_identity_email h.slot_email) (
                              >>=-Encodes _ (number 7 (omega arith)) (
                                >>=-Encodes _ (field-Encodes d.client_profile_name h.client_name) (
                                  >>=-Encodes _ (number 8 (omega arith)) (
                                    >>=-Encodes _
                                      (field-Encodes d.client_profile_email h.client_email)
                                      (>>=-Encodes _ (number 9 (omega arith)) (
                                        >>=-Encodes _ (field-Encodes d.device_name h.device) (
                                          >>=-Encodes _ (number 10 (omega arith)) (
                                            >>=-Encodes _
                                              (fixed-Encodes 32 d.content_hash h.hash (omega arith))
                                              (>>=-Encodes _ (number 11 (omega arith)) (
                                                >>=-Encodes _
                                                  (read_content-Encodes d.content h.content.0
                                                    h.content.1)
                                                  (return-Encodes
                                                    (required_of d))))))))))))))))))))))))
