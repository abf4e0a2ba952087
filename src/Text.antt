-- ===== src/Text.antt =====
-- src/format/text_validation.cpp, on a non-null span of bytes.
pub mod Utf8
use scpefe.Base.{
  Bool, Bytes, Option, [], false, if◌then◌else◌, leb, length, ltb, none, not, some, suc, true, zero,
  ℕ, ◌%◌, ◌&&◌, ◌*◌, ◌+◌, ◌/◌, ◌==◌, ◌^◌, ◌||◌, ◌∷◌,
}

-- `bytes[index++]` for the continuation bytes of a code point; `none` is `return false`.
continuation : ℕ → ℕ → Bytes → Option (ℕ × Bytes)
continuation zero point bs = some (point, bs)
continuation (suc n) point [] = none
continuation (suc n) point (next ∷ bs) =
    let rest = continuation n (point * 64 % 2 ^ 32 + next % 64) bs in
    if next / 64 == 2 then rest else none

-- The continuation bytes, the first bits and the least code point that a first byte announces.
abbrev pub lead : ℕ → Option (ℕ × ℕ × ℕ)
lead first =
    if leb 0xc2 first && leb first 0xdf
    then some (1, first % 32, 0x80)
    else if leb 0xe0 first && leb first 0xef
    then some (2, first % 16, 0x800)
    else if leb 0xf0 first && leb first 0xf4
    then some (3, first % 8, 0x1_0000)
    else none

abbrev pub scalar : ℕ → ℕ → Bool
scalar minimum point =
    not (ltb point minimum || ltb 0x10_ffff point || (leb 0xd800 point && leb point 0xdfff))

-- One round of the loop: the code point and the bytes behind it.
unfoldable pub code_point : Bytes → Option (ℕ × Bytes)
unfolding continuation
code_point [] = none
code_point (first ∷ bs) = if leb first 0x7f then some (first, bs) else elim (lead first) [
  | none ↦ none
  | some (count, bits, minimum) ↦
      if ltb (length bs) count then none else elim (continuation count bits bs) [
        | none ↦ none
        | some (point, rest) ↦ if scalar minimum point then some (point, rest) else none
      ]
]

-- Each round takes a byte at least, so `length bs` rounds are enough.
unfoldable pub utf8_loop : ℕ → Bytes → Bool
unfolding code_point
utf8_loop fuel [] = true
utf8_loop zero (b ∷ bs) = false
utf8_loop (suc fuel) (b ∷ bs) = elim (code_point (b ∷ bs)) [
  | none ↦ false
  | some (point, rest) ↦ utf8_loop fuel rest
]

unfoldable pub valid_utf8 : Bytes → Bool
unfolding utf8_loop
valid_utf8 bs = utf8_loop (length bs) bs

abbrev pub starts_with_bom : Bytes → Bool
starts_with_bom (a ∷ b ∷ c ∷ rest) = a == 0xef && b == 0xbb && c == 0xbf
starts_with_bom _ = false

pub contains : ℕ → Bytes → Bool
contains x [] = false
contains x (b ∷ bs) = b == x || contains x bs

unfoldable pub valid_canonical_document_text : Bytes → Bool
unfolding contains
valid_canonical_document_text bs =
    valid_utf8 bs && not (starts_with_bom bs) && not (contains 0x0d bs)
