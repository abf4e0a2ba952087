-- ===== src/Snapshot/Tails.antt =====
-- The optional fields that `encode` of src/format/snapshot_revision.cpp writes, one group after the
-- other, and `decode` reads.
use mathlib.Core.List.{append_assoc}
use scpefe.Base.{
  Bytes, [], arith, inl, inr, is_empty, length, refl, suc, zero, ℕ, ◌++◌, ◌<◌, ◌^◌, ◌∷◌, ◌≡◌, ◌≤◌,
  ◌⊎◌,
}
use scpefe.Cbor.Encodes.{>>=-Encodes, Encodes, return-Encodes}
use scpefe.Cbor.Limits.{default_limits}
use scpefe.Cbor.Reading.{Reads, ◌>>=◌}
use scpefe.Cbor.Writer.{Writes, header, put_text, put_unsigned, ◌▷◌}
use scpefe.Snapshot.Data.{SnapshotData}
use scpefe.Snapshot.Decoding.{
  optional_field, read_base, read_event_detail, read_event_type, read_sealed,
}
use scpefe.Snapshot.Encoding.{put_event}
use scpefe.Snapshot.Optional.{none_left-Encodes, skipped-Encodes, taken-Encodes}
use scpefe.Snapshot.Parts.{text-fits-Encodes}
use scpefe.Snapshot.Required.{IsTextField}

-- Nothing remains, or the next key is greater than `k`.
abbrev pub Later : ℕ → ℕ → Writes → Type 0
Later k n w = (n ≡ 0) ⊎ ((j : ℕ) × (c : Bytes) × (k < j) × (j < 2 ^ 64) × (w [] ≡ header 0 j ++ c))

pub Later-skipped :
    {A : Type 0} (k : ℕ) (read : SnapshotData → Reads SnapshotData) (f : ℕ × SnapshotData → Reads A)
    (n : ℕ) (d : SnapshotData) (w : Writes) (a : A)
    → Later k n w
    → Encodes (f (n, d)) w a
    → Encodes (optional_field k read (n, d) >>= f) w a
Later-skipped k read f zero d w a l e = >>=-Encodes _ (none_left-Encodes k read d) e
Later-skipped k read f (suc n) d w a (inl none_left) e = absurd (omega arith)
Later-skipped k read f (suc n) d w a (inr (j, c, less, h, start)) e =
    skipped-Encodes k read f n d w a j c start (ground arith) h e

pub Later-weaken : (j k n : ℕ) (w : Writes) → j ≤ k → Later k n w → Later j n w
Later-weaken j k n w h (inl none_left) = inl none_left
Later-weaken j k n w h (inr (i, c, less, l, start)) = inr (i, c, omega arith, l, start)

abbrev pub read_event : ℕ × SnapshotData → Reads (ℕ × SnapshotData)
read_event d3 = do
  d4 ← optional_field 15 (read_event_type default_limits) d3
  optional_field 16 (read_event_detail default_limits) d4

abbrev pub read_provisional : ℕ × SnapshotData → Reads (ℕ × SnapshotData)
read_provisional d1 = do
  d2 ← optional_field 13 read_sealed d1
  d3 ← optional_field 14 (read_base default_limits) d2
  read_event d3

abbrev pub Appends : Writes → Type 0
Appends w = (output : Bytes) → w output ≡ output ++ w []

pub then-Appends : (v w : Writes) → Appends v → Appends w → Appends (λ output. w (v output))
then-Appends v w h k output =
    rw (k (v output), k (v []), h output) (append_assoc output (v []) (w []))

text-Appends : (t : Bytes) → Appends (put_text t)
text-Appends t output = append_assoc output (header 3 (length t)) t

pub number-Appends : (k : ℕ) → Appends (put_unsigned k)
number-Appends k output = refl

-- How many fields the event takes.
abbrev pub event_count : Bytes → ℕ
event_count [] = 0
event_count (x ∷ xs) = 2

-- The event, from data without one.
pub event_tail :
    (d : SnapshotData) (type detail : Bytes)
    → IsTextField type
    → IsTextField detail
    → is_empty type ≡ is_empty detail
    → Encodes
        (read_event (event_count type, record d { event_type = []; event_detail = [] }))
        (put_event (record d { event_type = type; event_detail = detail }))
        (0, record d { event_type = type; event_detail = detail })
unfolding put_event read_event_type read_event_detail
event_tail d [] [] h k same =
    >>=-Encodes _
      (none_left-Encodes 15 (read_event_type default_limits)
        (record d { event_type = []; event_detail = [] }))
      (none_left-Encodes 16 (read_event_detail default_limits)
        (record d { event_type = []; event_detail = [] }))
event_tail d [] (y ∷ ys) h k same = cc
event_tail d (x ∷ xs) detail h k same =
    let typed : SnapshotData = record d { event_type = x ∷ xs; event_detail = [] } in
    let whole : SnapshotData = record d { event_type = x ∷ xs; event_detail = detail } in
    >>=-Encodes _
      (taken-Encodes 15 (read_event_type default_limits) 1
        (record d { event_type = []; event_detail = [] }) typed (put_text (x ∷ xs)) (omega arith)
        (>>=-Encodes _ (text-fits-Encodes (x ∷ xs) h.0 h.1) (return-Encodes typed)))
      (taken-Encodes 16 (read_event_detail default_limits) 0 typed whole (put_text detail)
        (omega arith) (>>=-Encodes _ (text-fits-Encodes detail k.0 k.1) (return-Encodes whole)))

pub event-Later :
    (d : SnapshotData) (type detail : Bytes)
    → Later 14
        (event_count type)
        (put_event (record d { event_type = type; event_detail = detail }))
unfolding put_event
event-Later d [] detail = inl refl
event-Later d (x ∷ xs) detail =
    let w : Writes = λ output. output ▷ put_text (x ∷ xs) ▷ put_unsigned 16 ▷ put_text detail in
    let appended : Appends w =
      then-Appends (put_text (x ∷ xs)) (λ output. put_text detail (put_unsigned 16 output))
        (text-Appends (x ∷ xs))
        (then-Appends (put_unsigned 16) (put_text detail) (number-Appends 16)
          (text-Appends detail)) in
    inr (15, w [], omega arith, omega arith, appended (header 0 15))
