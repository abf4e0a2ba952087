-- ===== src/Snapshot/Parts.antt =====
-- The parts that `encode` of src/format/snapshot_revision.cpp writes, and `decode` reads.
use mathlib.Core.Path.{subst}
use scpefe.Base.{
  All, Bytes, List, [], arith, drop, false, inr, length, length-drop, length-take, ltb, refl, suc,
  take, take-append-drop, true, zero, ℕ, ◌%◌, ◌*◌, ◌++◌, ◌-◌, ◌/◌, ◌<◌, ◌^◌, ◌||◌, ◌∷◌, ◌≡◌, ◌≤◌,
}
use scpefe.Cbor.Encodes.{
  >>=-Encodes, Encodes, array-Encodes, bytes-Encodes, checked-Encodes, return-Encodes, text-Encodes,
}
use scpefe.Cbor.Items.{expect_unsigned-put_unsigned}
use scpefe.Cbor.Limits.{default_limits, limit_exceeded, malformed_cbor}
use scpefe.Cbor.Reader.{bytes, expect_unsigned}
use scpefe.Cbor.Writer.{put_bytes, put_text, put_unsigned}
use scpefe.Snapshot.Data.{Node, ids}
use scpefe.Snapshot.Decoding.{read_ids, read_nodes, read_parents}
use scpefe.Snapshot.Encoding.{put_ids, put_nodes, put_parents}
use scpefe.Text.{valid_utf8}
use scpefe.Cbor.Reader

pub expect-Encodes : (k : ℕ) → k < 2 ^ 64 → Encodes (expect_unsigned k) (put_unsigned k) tt
expect-Encodes k h = record { appends = λ output. refl; reads = expect_unsigned-put_unsigned k h }

pub fixed-Encodes :
    (size : ℕ) (v : Bytes)
    → size ≡ length v
    → size ≤ 32
    → Encodes (Reader.bytes default_limits size 0) (put_bytes v) v
fixed-Encodes size v h k = bytes-Encodes default_limits size 0 v (omega arith) (omega arith) (inr h)

read_ids-Encodes :
    (n : ℕ) (bytes : Bytes)
    → length bytes ≡ 32 * n
    → Encodes (read_ids default_limits n) (put_ids (ids n bytes)) bytes
unfolding read_ids put_ids ids
read_ids-Encodes zero [] h = return-Encodes []
read_ids-Encodes zero (x ∷ xs) h = absurd (ground arith)
read_ids-Encodes (suc n) bytes h =
    let size : 32 ≡ length (take 32 bytes) = omega (arith, length-take 32 bytes (omega arith)) in
    let left : length (drop 32 bytes) ≡ 32 * n = omega (arith, length-drop 32 bytes) in
    let whole : take 32 bytes ++ drop 32 bytes ≡ bytes = take-append-drop 32 bytes in
    let both : Encodes (read_ids default_limits (suc n)) (put_ids (ids (suc n) bytes))
        (take 32 bytes ++ drop 32 bytes) =
      >>=-Encodes _ (fixed-Encodes 32 (take 32 bytes) size (omega arith)) (
        >>=-Encodes _ (read_ids-Encodes n (drop 32 bytes) left)
          (return-Encodes (take 32 bytes ++ drop 32 bytes))) in
    subst (λ xs. Encodes (read_ids default_limits (suc n)) (put_ids (ids (suc n) bytes)) xs) whole
      both

-- Ids as `validate_data` accepts them.
abbrev pub AreIds : Bytes → Type 0
AreIds bytes = (length bytes % 32 ≡ 0) × (length bytes / 32 ≤ default_limits.max_parent_count)

pub read_parents-Encodes :
    (depth : ℕ) (bytes : Bytes)
    → depth ≤ 4
    → AreIds bytes
    → Encodes (read_parents default_limits depth) (put_parents bytes) bytes
unfolding read_parents
read_parents-Encodes depth bytes h (whole, few) =
    let passes : (ltb default_limits.max_parent_count (length bytes / 32)
          || ltb ((2 ^ 64 - 1) / 32) (length bytes / 32))
        ≡ false =
      ground arith in
    >>=-Encodes _
      (array-Encodes default_limits depth (length bytes / 32) (omega arith) (omega arith)
        (omega arith))
      (checked-Encodes limit_exceeded passes
        (read_ids-Encodes (length bytes / 32) bytes (omega arith)))

abbrev pub AreNodes : List Node → Type 0
AreNodes = All λ node. (32 ≡ length node.revision_id) × AreIds node.parent_revision_ids

pub read_nodes-Encodes :
    (graph : List Node)
    → AreNodes graph
    → Encodes (read_nodes default_limits (length graph)) (put_nodes graph) graph
unfolding read_nodes put_nodes
read_nodes-Encodes [] h = return-Encodes []
read_nodes-Encodes (node ∷ nodes) h =
    >>=-Encodes _ (array-Encodes default_limits 3 2 (omega arith) (omega arith) (omega arith)) (
      checked-Encodes malformed_cbor refl (
        >>=-Encodes _ (fixed-Encodes 32 node.revision_id h.0.0 (omega arith)) (
          >>=-Encodes _ (read_parents-Encodes 4 node.parent_revision_ids (omega arith) h.0.1)
            (>>=-Encodes _ (read_nodes-Encodes nodes h.1) (return-Encodes (node ∷ nodes))))))

pub text-fits-Encodes :
    (v : Bytes)
    → length v ≤ default_limits.max_text_bytes
    → valid_utf8 v ≡ true
    → Encodes (Reader.text default_limits) (put_text v) v
text-fits-Encodes v h k = text-Encodes default_limits v (omega arith) h k
