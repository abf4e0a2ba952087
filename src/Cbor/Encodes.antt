-- ===== src/Cbor/Encodes.antt =====
-- Chains of calls on a reader of src/format/cbor_reader.cpp that read back chains of calls on a
-- writer of src/format/cbor_writer.cpp.
-- A write that appends, and whose bytes the call reads back as `a`.
use mathlib.Core.List.{append-nil, append_assoc}
use scpefe.Base.{
  Bool, Bytes, [], arith, false, length, refl, sym, true, ℕ, ◌++◌, ◌<◌, ◌^◌, ◌≡◌, ◌≤◌, ◌⊎◌,
}
use scpefe.Cbor.Items.{
  >>=-ReadsBack, ReadsBack, array-put_array, boolean-put_boolean, byte_limit, bytes-put_bytes,
  head-ReadsBack, map-put_map, text-put_text,
}
use scpefe.Cbor.Limits.{RevisionError, RevisionLimits}
use scpefe.Cbor.Reader.{boolean, head, unsigned_integer}
use scpefe.Cbor.Reading.{Reads, fail_if, return, ◌>>=◌, ◌>>◌}
use scpefe.Cbor.Writer.{
  Writes, header, put_array, put_boolean, put_bytes, put_head, put_map, put_raw, put_text,
  put_unsigned,
}
use scpefe.Text.{valid_utf8}
use scpefe.Cbor.Reader

pub record Encodes {ℓ} {A : Type ℓ} (m : Reads A) (w : Writes) (a : A) : Type ℓ where
  pub appends : (output : Bytes) → w output ≡ output ++ w []
  pub reads : ReadsBack m (w []) a

module _ {ℓ} {A : Type ℓ} where
  pub return-Encodes : (a : A) → Encodes (return a) (λ output. output) a
  return-Encodes a = record {
    appends = λ output. sym (append-nil output);
    reads = λ rest n. ground arith;
  }

  -- A test that passes.
  pub checked-Encodes :
      {b : Bool} (x : RevisionError) {m : Reads A} {w : Writes} {a : A}
      → b ≡ false
      → Encodes m w a
      → Encodes (fail_if b x >> m) w a
  checked-Encodes {b = true} x h e = cc
  checked-Encodes {b = false} x h e = e

  pub raw-Encodes : (m : Reads A) (c : Bytes) (a : A) → ReadsBack m c a → Encodes m (put_raw c) a
  raw-Encodes m c a h = record { appends = λ output. refl; reads = h }

-- Two calls in a row read what two calls in a row wrote.
pub >>=-Encodes {ℓ κ} :
    {A : Type ℓ} {B : Type κ} {m : Reads A} (f : A → Reads B) {v w : Writes} {a : A} {b : B}
    → Encodes m v a
    → Encodes (f a) w b
    → Encodes (m >>= f) (λ output. w (v output)) b
>>=-Encodes {m = m} f {v} {w} {a} {b} h k = record {
  appends = λ output.
      rw (k.appends (v output), k.appends (v []), h.appends output)
        (append_assoc output (v []) (w []));
  reads = rw (k.appends (v [])) (>>=-ReadsBack m f (v []) (w []) a b h.reads k.reads);
}

head-Encodes : (major v : ℕ) → major < 8 → v < 2 ^ 64 → Encodes (head major) (put_head major v) v
head-Encodes major v h k = record { appends = λ output. refl; reads = head-ReadsBack major v h k }

pub unsigned-Encodes : (v : ℕ) → v < 2 ^ 64 → Encodes unsigned_integer (put_unsigned v) v
unfolding unsigned_integer
unsigned-Encodes v h = head-Encodes 0 v (omega arith) h

pub boolean-Encodes : (b : Bool) → Encodes boolean (put_boolean b) b
boolean-Encodes b = record { appends = λ output. refl; reads = boolean-put_boolean b }

pub array-Encodes :
    (limits : RevisionLimits) (depth count : ℕ)
    → depth ≤ limits.max_nesting_depth
    → count ≤ limits.max_collection_entries
    → count < 2 ^ 64
    → Encodes (Reader.array limits depth) (put_array count) count
array-Encodes limits depth count hd hc h = record {
  appends = λ output. refl;
  reads = array-put_array limits depth count hd hc h;
}

pub map-Encodes :
    (limits : RevisionLimits) (depth count : ℕ)
    → depth ≤ limits.max_nesting_depth
    → count ≤ limits.max_collection_entries
    → count < 2 ^ 64
    → Encodes (Reader.map limits depth) (put_map count) count
map-Encodes limits depth count hd hc h = record {
  appends = λ output. refl;
  reads = map-put_map limits depth count hd hc h;
}

pub bytes-Encodes :
    (limits : RevisionLimits) (required maximum : ℕ) (v : Bytes)
    → length v < 2 ^ 64
    → length v ≤ byte_limit limits maximum
    → (required ≡ 0) ⊎ (required ≡ length v)
    → Encodes (Reader.bytes limits required maximum) (put_bytes v) v
bytes-Encodes limits required maximum v h fits req = record {
  appends = λ output. append_assoc output (header 2 (length v)) v;
  reads = bytes-put_bytes limits required maximum v h fits req;
}

pub text-Encodes :
    (limits : RevisionLimits) (v : Bytes)
    → length v < 2 ^ 64
    → length v ≤ limits.max_text_bytes
    → valid_utf8 v ≡ true
    → Encodes (Reader.text limits) (put_text v) v
text-Encodes limits v h fits valid = record {
  appends = λ output. append_assoc output (header 3 (length v)) v;
  reads = text-put_text limits v h fits valid;
}
