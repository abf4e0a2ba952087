-- ===== src/Cbor/Writer.antt =====
-- src/format/cbor_writer.cpp. A call takes `output_` and returns it with the item appended.
use scpefe.Base.{
  Bool, Bytes, [], if◌then◌else◌, leb, length, ltb, suc, zero, ℕ, ◌%◌, ◌*◌, ◌++◌, ◌+◌, ◌/◌, ◌^◌,
  ◌∷◌,
}

-- `value >> ((shift - 1) * 8u)`, cast to a byte, for `shift` from the width down to 1.
unfoldable pub big_endian : ℕ → ℕ → Bytes
big_endian zero value = []
big_endian (suc shift) value = value / 2 ^ (shift * 8) % 256 ∷ big_endian shift value

-- The fields `major << 5u` and `value` or `info` do not overlap, so `|` is `+`.
abbrev initial_byte : ℕ → ℕ → ℕ
initial_byte major info = (major * 32 + info) % 256

unfoldable pub header : ℕ → ℕ → Bytes
unfolding big_endian
header major value =
    if ltb value 24
    then initial_byte major value ∷ []
    else if leb value 0xff
    then initial_byte major 24 ∷ big_endian 1 value
    else if leb value 0xffff
    then initial_byte major 25 ∷ big_endian 2 value
    else if leb value 0xffff_ffff
    then initial_byte major 26 ∷ big_endian 4 value
    else initial_byte major 27 ∷ big_endian 8 value

abbrev pub Writes : Type 0
Writes = Bytes → Bytes

infixl 3 ◌▷◌
abbrev pub ◌▷◌ : Bytes → Writes → Bytes
output ▷ write = write output

abbrev pub put_head : ℕ → ℕ → Writes
put_head major value output = output ++ header major value

abbrev pub put_unsigned : ℕ → Writes
put_unsigned value = put_head 0 value

abbrev pub put_boolean : Bool → Writes
put_boolean value output = output ++ ((if value then 0xf5 else 0xf4) ∷ [])

abbrev pub put_array : ℕ → Writes
put_array size = put_head 4 size

abbrev pub put_map : ℕ → Writes
put_map size = put_head 5 size

abbrev pub put_bytes : Bytes → Writes
put_bytes value output = put_head 2 (length value) output ++ value

abbrev pub put_text : Bytes → Writes
put_text value output = put_head 3 (length value) output ++ value

abbrev pub put_raw : Bytes → Writes
put_raw value output = output ++ value
