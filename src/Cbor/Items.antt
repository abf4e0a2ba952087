-- ===== src/Cbor/Items.antt =====
-- Whole items: src/format/cbor_reader.cpp reads back what src/format/cbor_writer.cpp appended.
use mathlib.Core.List.{append_assoc}
use scpefe.Base.{
  Bool, Bytes, [], ap, arith, drop-append_length, false, if◌then◌else◌, length, length-append, ok,
  take-append_length, true, ℕ, ◌++◌, ◌+◌, ◌<◌, ◌==◌, ◌^◌, ◌∙◌, ◌≡◌, ◌≤◌, ◌⊎◌,
}
use scpefe.Cbor.Heads.{head-header}
use scpefe.Cbor.Limits.{RevisionLimits}
use scpefe.Cbor.Reader.{
  array, boolean, bytes, collection, expect_unsigned, head, require_available, take_bytes, text,
}
use scpefe.Cbor.Reading.{Reads, at, ◌>>=◌}
use scpefe.Cbor.Writer.{header, put_array, put_boolean, put_bytes, put_map, put_text, put_unsigned}
use scpefe.Text.{valid_utf8}
use scpefe.Cbor.Reader

-- A call that returns `v` from the encoding `enc`, and stops behind it, whatever follows.
abbrev pub ReadsBack {ℓ} : {A : Type ℓ} → Reads A → Bytes → A → Type ℓ
ReadsBack m enc v =
    (rest : Bytes) (n : ℕ) → m (at (enc ++ rest) n) ≡ ok (v, at rest (n + length enc))

-- Two calls in a row read two encodings in a row.
pub >>=-ReadsBack {ℓ κ} :
    {A : Type ℓ} {B : Type κ} (m : Reads A) (f : A → Reads B) (e₁ e₂ : Bytes) (a : A) (b : B)
    → ReadsBack m e₁ a
    → ReadsBack (f a) e₂ b
    → ReadsBack (m >>= f) (e₁ ++ e₂) b
>>=-ReadsBack m f e₁ e₂ a b hm hf rest n =
    rw (append_assoc e₁ e₂ rest, hm (e₂ ++ rest) n, length-append e₁ e₂, ◌>>=◌)
      (hf rest (n + length e₁) ∙ ap (λ k. ok (b, at rest k)) (omega arith))

pub head-ReadsBack :
    (major v : ℕ) → major < 8 → v < 2 ^ 64 → ReadsBack (head major) (header major v) v
head-ReadsBack major v hm hv rest n = head-header major v n rest hm hv

pub available_back :
    (v rest : Bytes) (n : ℕ)
    → require_available (length v) (at (v ++ rest) n) ≡ ok (tt, at (v ++ rest) n)
unfolding require_available
available_back v rest n = ground (arith, length-append v rest)

pub taken_back :
    (v rest : Bytes) (n : ℕ)
    → take_bytes (length v) (at (v ++ rest) n) ≡ ok (v, at rest (n + length v))
unfolding take_bytes
taken_back v rest n =
    ground (arith, length-append v rest, take-append_length v rest, drop-append_length v rest)

abbrev pub byte_limit : RevisionLimits → ℕ → ℕ
byte_limit limits maximum = if maximum == 0 then limits.max_byte_string_bytes else maximum

-- A byte string within the limit, and of the required size if there is one, is read back.
pub bytes-put_bytes :
    (limits : RevisionLimits) (required maximum : ℕ) (v : Bytes)
    → length v < 2 ^ 64
    → length v ≤ byte_limit limits maximum
    → (required ≡ 0) ⊎ (required ≡ length v)
    → ReadsBack (bytes limits required maximum) (put_bytes v []) v
unfolding bytes
bytes-put_bytes limits required maximum v h fits req =
    >>=-ReadsBack (head 2) _ (header 2 (length v)) v (length v) v
      (head-ReadsBack 2 (length v) (omega arith) h)
      (λ rest n. ground (arith, available_back v rest n, taken_back v rest n))

-- Valid UTF-8 within the limit is read back.
pub text-put_text :
    (limits : RevisionLimits) (v : Bytes)
    → length v < 2 ^ 64
    → length v ≤ limits.max_text_bytes
    → valid_utf8 v ≡ true
    → ReadsBack (text limits) (put_text v []) v
unfolding text
text-put_text limits v h fits valid =
    >>=-ReadsBack (head 3) _ (header 3 (length v)) v (length v) v
      (head-ReadsBack 3 (length v) (omega arith) h)
      (λ rest n. ground (arith, valid, available_back v rest n, taken_back v rest n))

pub boolean-put_boolean : (b : Bool) → ReadsBack boolean (put_boolean b []) b
unfolding boolean
boolean-put_boolean true rest n = ground arith
boolean-put_boolean false rest n = ground arith

pub array-put_array :
    (limits : RevisionLimits) (depth count : ℕ)
    → depth ≤ limits.max_nesting_depth
    → count ≤ limits.max_collection_entries
    → count < 2 ^ 64
    → ReadsBack (array limits depth) (put_array count []) count
unfolding array collection
array-put_array limits depth count hd hc h rest n =
    ground (arith, head-ReadsBack 4 count (omega arith) h rest n)

pub map-put_map :
    (limits : RevisionLimits) (depth count : ℕ)
    → depth ≤ limits.max_nesting_depth
    → count ≤ limits.max_collection_entries
    → count < 2 ^ 64
    → ReadsBack (Reader.map limits depth) (put_map count []) count
unfolding Reader.map collection
map-put_map limits depth count hd hc h rest n =
    ground (arith, head-ReadsBack 5 count (omega arith) h rest n)

pub expect_unsigned-put_unsigned :
    (v : ℕ) → v < 2 ^ 64 → ReadsBack (expect_unsigned v) (put_unsigned v []) tt
unfolding expect_unsigned
expect_unsigned-put_unsigned v h rest n = ground (arith, head-ReadsBack 0 v (omega arith) h rest n)
