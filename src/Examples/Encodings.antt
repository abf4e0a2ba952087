-- ===== src/Examples/Encodings.antt =====
-- Runs of the CBOR reader and writer and of the text checks.
use scpefe.Base.{
  All, Bytes, List, [], arith, err, false, inr, length, ok, refl, true, ℕ, ◌++◌, ◌+◌, ◌↔◌, ◌∷◌, ◌≡◌,
}
use scpefe.Cbor.Canonical.{Wrote, head-Wrote}
use scpefe.Cbor.Heads.{head-header}
use scpefe.Cbor.Items.{ReadsBack, bytes-put_bytes, text-put_text}
use scpefe.Cbor.Limits.{default_limits, malformed_cbor}
use scpefe.Cbor.Reader.{
  array, boolean, bytes, expect_unsigned, head, peek_major, peek_unsigned, skip_extension, text,
}
use scpefe.Cbor.Reading.{at}
use scpefe.Cbor.Safety.{IsSafe, reader-IsSafe}
use scpefe.Cbor.Writer.{header, put_bytes, put_text}
use scpefe.Text.{valid_utf8}
use scpefe.Text.Utf8.{IsScalar, utf8_all, valid_utf8_iff}
use scpefe.Cbor.Reader

abbrev sample : Bytes
sample = 0x61 ∷ 0xc3 ∷ 0xa9 ∷ 0xe2 ∷ 0x82 ∷ 0xac ∷ []

sample_valid : valid_utf8 sample ≡ true
unfolding valid_utf8
sample_valid = refl

-- An overlong form, a surrogate and a cut code point are refused.
overlong : valid_utf8 (0xc0 ∷ 0xaf ∷ []) ≡ false
unfolding valid_utf8
overlong = refl

surrogate : valid_utf8 (0xed ∷ 0xa0 ∷ 0x80 ∷ []) ≡ false
unfolding valid_utf8
surrogate = refl

valid_utf8_iff_example :
    (valid_utf8 sample ≡ true) ↔ ((cs : List ℕ) × All IsScalar cs × (sample ≡ utf8_all cs))
valid_utf8_iff_example = valid_utf8_iff sample (omega arith)

head-header_example :
    head 0 (at (header 0 1000 ++ (7 ∷ [])) 0) ≡ ok (1000, at (7 ∷ []) (0 + length (header 0 1000)))
head-header_example = head-header 0 1000 0 (7 ∷ []) (omega arith) (omega arith)

reads_1000 : head 0 (at (0x19 ∷ 0x03 ∷ 0xe8 ∷ 7 ∷ []) 0) ≡ ok (1000, at (7 ∷ []) 3)
unfolding head Reader.big_endian
reads_1000 = refl

-- 24 in two value bytes is not the shortest form.
padded : head 0 (at (0x19 ∷ 0x00 ∷ 0x18 ∷ []) 0) ≡ err malformed_cbor
unfolding head Reader.big_endian
padded = refl

head-Wrote_example : Wrote 0 (0x19 ∷ 0x03 ∷ 0xe8 ∷ 7 ∷ []) 0 1000 (at (7 ∷ []) 3)
head-Wrote_example =
    head-Wrote 0 0x19 0 1000 (0x03 ∷ 0xe8 ∷ 7 ∷ []) (at (7 ∷ []) 3) (omega arith) reads_1000

reader-IsSafe_example :
    IsSafe (head 2)
    × IsSafe (expect_unsigned 2)
    × IsSafe peek_unsigned
    × IsSafe boolean
    × IsSafe (array default_limits 2)
    × IsSafe (Reader.map default_limits 2)
    × IsSafe (bytes default_limits 2 3)
    × IsSafe (text default_limits)
    × IsSafe peek_major
    × IsSafe (skip_extension default_limits 2)
reader-IsSafe_example = reader-IsSafe default_limits 2 3

bytes-put_bytes_example :
    ReadsBack (bytes default_limits 3 0) (put_bytes (1 ∷ 2 ∷ 3 ∷ []) []) (1 ∷ 2 ∷ 3 ∷ [])
bytes-put_bytes_example =
    bytes-put_bytes default_limits 3 0 (1 ∷ 2 ∷ 3 ∷ []) (omega arith) (omega arith) (inr refl)

text-put_text_example : ReadsBack (text default_limits) (put_text sample []) sample
text-put_text_example = text-put_text default_limits sample (omega arith) (omega arith) sample_valid
