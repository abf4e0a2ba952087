-- ===== src/Cbor/Reader.antt =====
-- src/format/cbor_reader.cpp. A read past the end, which C++ leaves undefined, is `fault`.
use scpefe.Base.{
  Bool, Bytes, [], drop, err, false, fault, if◌then◌else◌, leb, length, ltb, not, ok, suc, take,
  true, zero, ℕ, ◌%◌, ◌&&◌, ◌*◌, ◌+◌, ◌-◌, ◌/◌, ◌==◌, ◌^◌, ◌||◌, ◌∷◌,
}
use scpefe.Cbor.Limits.{RevisionLimits, limit_exceeded, malformed_cbor}
use scpefe.Cbor.Reading.{Reader, Reads, at, fail, fail_if, return, ◌>>=◌, ◌>>◌}
use scpefe.Text.{valid_utf8}

unfoldable pub require_available : ℕ → Reads (Unit {0})
require_available n r = fail_if (ltb (length r.rest) n) malformed_cbor r

-- `data_[position_++]`
unfoldable pub next_byte : Reads ℕ
next_byte r = elim r.rest [
  | [] ↦ fault
  | b ∷ bs ↦ ok (b, record { rest = bs; position = r.position + 1 })
]

-- The next `n` bytes as they are, and the position behind them.
unfoldable pub take_bytes : ℕ → Reads Bytes
take_bytes n r = elim (ltb (length r.rest) n) [
  | true ↦ fault
  | false ↦ ok (take n r.rest, at (drop n r.rest) (r.position + n))
]

-- `value = (value << 8u) | data_[position_++]`: the low byte of the shifted value is zero.
unfoldable pub big_endian : ℕ → ℕ → Reads ℕ
unfolding next_byte
big_endian zero value = return value
big_endian (suc n) value = do b ← next_byte; big_endian n (value * 256 % 2 ^ 64 + b)

abbrev pub width : ℕ → ℕ
width info = if info == 24 then 1 else if info == 25 then 2 else if info == 26 then 4 else 8

abbrev pub minimum : ℕ → ℕ
minimum count =
    if count == 1
    then 24
    else if count == 2
    then 0x100
    else if count == 4
    then 0x1_0000
    else 0x1_0000_0000

unfoldable pub long_head : ℕ → Reads ℕ
unfolding require_available big_endian
long_head count = do
  require_available count
  value ← big_endian count 0
  fail_if (ltb value (minimum count)) malformed_cbor
  return value

-- `initial >> 5u` is the major type, `initial & 0x1fu` the rest.
unfoldable pub head : ℕ → Reads ℕ
unfolding require_available next_byte long_head
head expected_major = do
  require_available 1
  initial ← next_byte
  fail_if (not (initial / 32 == expected_major) || leb 28 (initial % 32)) malformed_cbor
  if ltb (initial % 32) 24 then return (initial % 32) else long_head (width (initial % 32))

unfoldable pub unsigned_integer : Reads ℕ
unsigned_integer = head 0

-- The position is restored.
unfoldable pub peek_unsigned : Reads ℕ
peek_unsigned r = elim (head 0 r) [
  | ok (value, moved) ↦ ok (value, r)
  | err e ↦ err e
  | fault ↦ fault
]

unfoldable pub expect_unsigned : ℕ → Reads (Unit {0})
unfolding unsigned_integer
expect_unsigned expected = do
  found ← unsigned_integer
  fail_if (not (found == expected)) malformed_cbor

unfoldable pub boolean : Reads Bool
unfolding require_available next_byte
boolean = do
  require_available 1
  value ← next_byte
  if value == 0xf4 then return false else if value == 0xf5 then return true else fail malformed_cbor

-- `size_t` has the 64 bits of the count, so its second bound is never passed.
unfoldable pub collection : RevisionLimits → ℕ → ℕ → Reads ℕ
collection limits major depth = do
  fail_if (ltb limits.max_nesting_depth depth) limit_exceeded
  count ← head major
  fail_if (ltb limits.max_collection_entries count || ltb (2 ^ 64 - 1) count) limit_exceeded
  return count

unfoldable pub array : RevisionLimits → ℕ → Reads ℕ
unfolding collection
array limits depth = collection limits 4 depth

unfoldable pub map : RevisionLimits → ℕ → Reads ℕ
unfolding collection
map limits depth = collection limits 5 depth

-- A required or maximum size of 0 stands for none.
unfoldable pub bytes : RevisionLimits → ℕ → ℕ → Reads Bytes
unfolding require_available take_bytes
bytes limits required_size maximum_size = do
  size ← head 2
  fail_if (ltb (if maximum_size == 0 then limits.max_byte_string_bytes else maximum_size) size)
      limit_exceeded
  fail_if (not (required_size == 0) && not (size == required_size)) malformed_cbor
  require_available size
  take_bytes size

unfoldable pub text : RevisionLimits → Reads Bytes
unfolding require_available take_bytes
text limits = do
  size ← head 3
  fail_if (ltb limits.max_text_bytes size) limit_exceeded
  require_available size
  value ← take_bytes size
  fail_if (not (valid_utf8 value)) malformed_cbor
  return value

unfoldable pub finished : Reader → Bool
finished r = length r.rest == 0

unfoldable pub peek_major : Reads ℕ
peek_major r = elim r.rest [ [] ↦ err malformed_cbor | b ∷ bs ↦ ok (b / 32, r) ]

-- The values of an array, and the keys and values of a map: the keys rise strictly.
unfoldable pub skip_values : Reads (Unit {0}) → ℕ → Reads (Unit {0})
skip_values skip zero = return tt
skip_values skip (suc n) = do skip; skip_values skip n

unfoldable pub skip_entries : Reads (Unit {0}) → Bool → ℕ → ℕ → Reads (Unit {0})
skip_entries skip first prior zero = return tt
skip_entries skip first prior (suc n) = do
  key ← unsigned_integer
  fail_if (not first && leb key prior) malformed_cbor
  skip
  skip_entries skip false key n

unfoldable pub discard {ℓ} : {A : Type ℓ} → Reads A → Reads (Unit {0})
discard m = do _ ← m; return tt

-- Major type 7: a Boolean or null.
unfoldable pub skip_simple : Reads (Unit {0})
skip_simple r = elim r.rest [
  | [] ↦ fault
  | b ∷ bs ↦
      if b == 0xf4 || b == 0xf5
      then discard boolean r
      else if b == 0xf6
      then ok (tt, record { rest = bs; position = r.position + 1 })
      else err malformed_cbor
]

-- `skip` stands for the nested call.
unfoldable pub skip_major : RevisionLimits → Reads (Unit {0}) → ℕ → ℕ → Reads (Unit {0})
unfolding discard skip_simple skip_values skip_entries
skip_major limits skip depth major =
    if major == 0
    then discard (head 0)
    else if major == 1
    then discard (head 1)
    else if major == 2
    then discard (bytes limits 0 0)
    else if major == 3
    then discard (text limits)
    else if major == 4
    then (do count ← array limits depth; skip_values skip count)
    else if major == 5
    then (do count ← map limits depth; skip_entries skip true 0 count)
    else if major == 7
    then skip_simple
    else fail malformed_cbor

-- The fuel is the number of levels that the depth limit still allows; see `skip_extension`.
unfoldable pub skip_at : RevisionLimits → ℕ → ℕ → Reads (Unit {0})
unfolding skip_major
skip_at limits zero depth = λ r. fault
skip_at limits (suc fuel) depth =
    let nested = skip_at limits fuel (depth + 1) in
    do
      fail_if (ltb limits.max_nesting_depth depth) limit_exceeded
      major ← peek_major
      skip_major limits nested depth major

unfoldable pub skip_extension : RevisionLimits → ℕ → Reads (Unit {0})
unfolding skip_at
skip_extension limits depth = skip_at limits (suc (limits.max_nesting_depth + 1 - depth)) depth
