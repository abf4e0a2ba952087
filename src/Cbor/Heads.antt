-- ===== src/Cbor/Heads.antt =====
-- Item headers: what src/format/cbor_writer.cpp writes, src/format/cbor_reader.cpp reads, and no
-- other spelling of it.
use scpefe.Base.{
  Bool-cases, Bytes, arith, false, inl, inr, leb, length, ltb, ok, refl, suc, ℕ, ◌%◌, ◌*◌, ◌++◌,
  ◌+◌, ◌<◌, ◌^◌, ◌∷◌, ◌≡◌, ◌≤◌,
}
use scpefe.Cbor.Reader.{head, minimum, width}
use scpefe.Cbor.Reading.{at}
use scpefe.Cbor.Writer.{header}
use scpefe.Cbor.Reader
use scpefe.Cbor.Writer

-- A short header, and one with `count` value bytes.
short_head :
    (major value n : ℕ) (rest : Bytes)
    → major < 8
    → value < 24
    → head major (at ((major * 32 + value) % 256 ∷ rest) n) ≡ ok (value, at rest (n + 1))
unfolding head
short_head major value n rest hm hv = ground arith

big_endian_1 :
    (v : ℕ) (rest : Bytes) (n : ℕ)
    → v < 2 ^ 8
    → Reader.big_endian 1 0 (at (Writer.big_endian 1 v ++ rest) n) ≡ ok (v, at rest (n + 1))
unfolding Reader.big_endian Writer.big_endian
big_endian_1 v rest n h = ground arith

big_endian_2 :
    (v : ℕ) (rest : Bytes) (n : ℕ)
    → v < 2 ^ 16
    → Reader.big_endian 2 0 (at (Writer.big_endian 2 v ++ rest) n) ≡ ok (v, at rest (n + 2))
unfolding Reader.big_endian Writer.big_endian
big_endian_2 v rest n h = ground arith

big_endian_4 :
    (v : ℕ) (rest : Bytes) (n : ℕ)
    → v < 2 ^ 32
    → Reader.big_endian 4 0 (at (Writer.big_endian 4 v ++ rest) n) ≡ ok (v, at rest (n + 4))
unfolding Reader.big_endian Writer.big_endian
big_endian_4 v rest n h = ground arith

big_endian_8 :
    (v : ℕ) (rest : Bytes) (n : ℕ)
    → v < 2 ^ 64
    → Reader.big_endian 8 0 (at (Writer.big_endian 8 v ++ rest) n) ≡ ok (v, at rest (n + 8))
unfolding Reader.big_endian Writer.big_endian
big_endian_8 v rest n h = ground arith

ge→ltb : (a b : ℕ) → b ≤ a → ltb a b ≡ false
ge→ltb a b h = ground arith

-- A header of the width that `info` announces, over the value bytes.
long_form :
    (major info count value n : ℕ) (ds rest : Bytes)
    → major < 8
    → 24 ≤ info
    → info < 28
    → width info ≡ count
    → minimum count ≤ value
    → count ≤ length (ds ++ rest)
    → Reader.big_endian count 0 (at (ds ++ rest) (n + 1)) ≡ ok (value, at rest (n + 1 + count))
    → head major (at ((major * 32 + info) % 256 ∷ ds ++ rest) n)
      ≡ ok (value, at rest (n + suc count))
unfolding head
long_form major info count value n ds rest hm lo hi hw least enough e = ground arith

wide_header :
    (major value n : ℕ) (rest : Bytes)
    → major < 8
    → value < 2 ^ 64
    → 24 ≤ value
    → head major (at (header major value ++ rest) n)
      ≡ ok (value, at rest (n + length (header major value)))
unfolding header
wide_header major value n rest hm hv lo =
    rw (ge→ltb value 24 lo) (elim (Bool-cases (leb value 0xff)) [
      | inl one ↦ rw one (
          long_form major 24 1 value n (Writer.big_endian 1 value) rest hm (omega arith)
            (omega arith) refl lo (omega arith) (big_endian_1 value rest (n + 1) (ground arith)))
      | inr w ↦ rw w (elim (Bool-cases (leb value 0xffff)) [
        | inl two ↦ rw two (
            long_form major 25 2 value n (Writer.big_endian 2 value) rest hm (omega arith)
              (omega arith) refl (ground arith) (omega arith)
              (big_endian_2 value rest (n + 1) (ground arith)))
        | inr x ↦ rw x (elim (Bool-cases (leb value 0xffff_ffff)) [
          | inl four ↦ rw four (
              long_form major 26 4 value n (Writer.big_endian 4 value) rest hm (omega arith)
                (omega arith) refl (ground arith) (omega arith)
                (big_endian_4 value rest (n + 1) (ground arith)))
          | inr y ↦ rw y (
              long_form major 27 8 value n (Writer.big_endian 8 value) rest hm (omega arith)
                (omega arith) refl (ground arith) (omega arith)
                (big_endian_8 value rest (n + 1) hv))
        ])
      ])
    ])

-- The reader returns the value under every header that the writer writes, and stops behind it.
pub head-header :
    (major value n : ℕ) (rest : Bytes)
    → major < 8
    → value < 2 ^ 64
    → head major (at (header major value ++ rest) n)
      ≡ ok (value, at rest (n + length (header major value)))
head-header major value n rest hm hv = elim (Bool-cases (ltb value 24)) [
  | inl short ↦ unfold header in rw short (short_head major value n rest hm (ground arith))
  | inr wide ↦ wide_header major value n rest hm hv (ground arith)
]
