-- ===== src/History/DeltaRoundTrip.antt =====
-- The delta that `merge_with` of src/format/revision_graph.cpp writes is read back by `parse_body`.
use mathlib.Core.List.{append-nil, append_assoc}
use mathlib.Core.Path.{subst}
use scpefe.Base.{
  All, Bytes, List, [], arith, false, inl, is_empty, length, ltb, not, refl, sym, ℕ, ◌++◌, ◌+◌, ◌-◌,
  ◌<◌, ◌==◌, ◌^◌, ◌∷◌, ◌≡◌, ◌≤◌,
}
use scpefe.Cbor.Encodes.{
  >>=-Encodes, Encodes, array-Encodes, bytes-Encodes, checked-Encodes, return-Encodes,
  unsigned-Encodes,
}
use scpefe.Cbor.Limits.{default_limits, limit_exceeded, malformed_cbor, unsupported_format}
use scpefe.Cbor.Reader.{text}
use scpefe.Cbor.Reading.{return}
use scpefe.Cbor.Writer.{put_array, put_bytes, put_unsigned, ◌▷◌}
use scpefe.Graph.Body.{
  is_whole, parse_body, read_copy, read_delta, read_insert, read_segment, read_segments,
}
use scpefe.Graph.Records.{Segment}
use scpefe.Graph.Slots.{fits}
use scpefe.History.Delta.{copy_of, insertion, put_segment, put_segments}

-- Each segment is read from what is written of it.
abbrev pub IsWritten : Segment → Type 0
IsWritten s = Encodes (read_segment default_limits) (put_segment s) s

read_insert-Encodes :
    (text : Bytes)
    → 1 ≤ length text
    → length text ≤ default_limits.max_text_bytes
    → Encodes (read_insert default_limits) (put_bytes text) (insertion text)
unfolding read_insert
read_insert-Encodes text h k =
    let filled : is_empty text ≡ false = ground arith in
    >>=-Encodes _
      (bytes-Encodes default_limits 0 default_limits.max_text_bytes text (omega arith) k (inl refl))
      (checked-Encodes malformed_cbor filled (return-Encodes _))

read_copy-Encodes :
    (start count : ℕ)
    → 1 ≤ count
    → count < 2 ^ 64
    → start < 2 ^ 64
    → Encodes read_copy
        (λ output. output ▷ put_unsigned start ▷ put_unsigned count)
        (copy_of start count)
unfolding read_copy
read_copy-Encodes start count h k l =
    let some_byte : (count == 0) ≡ false = ground arith in
    >>=-Encodes _ (unsigned-Encodes start l) (
      >>=-Encodes _ (unsigned-Encodes count k)
        (checked-Encodes malformed_cbor some_byte (return-Encodes _)))

pub inserts-Encodes :
    (text : Bytes)
    → 1 ≤ length text
    → length text ≤ default_limits.max_text_bytes
    → IsWritten (insertion text)
unfolding read_segment put_segment
inserts-Encodes text h k =
    >>=-Encodes _ (array-Encodes default_limits 7 2 (omega arith) (omega arith) (omega arith))
      (>>=-Encodes _ (unsigned-Encodes 1 (omega arith)) (read_insert-Encodes text h k))

pub copies-Encodes :
    (start count : ℕ)
    → 1 ≤ count
    → count < 2 ^ 64
    → start < 2 ^ 64
    → IsWritten (copy_of start count)
unfolding read_segment put_segment
copies-Encodes start count h k l =
    >>=-Encodes _ (array-Encodes default_limits 7 3 (omega arith) (omega arith) (omega arith))
      (>>=-Encodes _ (unsigned-Encodes 0 (omega arith)) (read_copy-Encodes start count h k l))

-- The bytes that the segments account for.
unfoldable pub total_count : List Segment → ℕ
total_count [] = 0
total_count (s ∷ ss) = s.count + total_count ss

read_segments-Encodes :
    (ss : List Segment) (total before : ℕ) (seen : List Segment)
    → All IsWritten ss
    → before + total_count ss ≡ total
    → Encodes
        (read_segments default_limits (length ss) total before seen)
        (put_segments ss)
        (seen ++ ss)
unfolding read_segments put_segments total_count
read_segments-Encodes [] total before seen h e =
    let done : not (before == total) ≡ false = ground arith in
    checked-Encodes malformed_cbor done (
      subst (λ xs. Encodes (return seen) (λ output. output) xs) (sym (append-nil seen))
        (return-Encodes seen))
read_segments-Encodes (s ∷ ss) total before seen h e =
    let fits : ltb (total - before) s.count ≡ false = ground arith in
    let rest =
      read_segments-Encodes ss total (before + s.count) (seen ++ (s ∷ [])) h.1 (ground arith) in
    >>=-Encodes _ h.0
      (checked-Encodes malformed_cbor fits (rw (append_assoc seen (s ∷ []) ss) at rest))

-- A delta of such segments is read back.
pub parse_body-delta_body :
    (ss : List Segment) (size : ℕ)
    → All IsWritten ss
    → length ss ≤ default_limits.max_collection_entries
    → total_count ss ≡ size
    → size ≤ default_limits.max_text_bytes
    → Encodes
        (parse_body default_limits 2)
        (λ output.
          output
          ▷ put_array 3
          ▷ put_unsigned 0
          ▷ put_unsigned size
          ▷ put_array (length ss)
          ▷ put_segments ss)
        (record { size = size; text = []; segments = ss })
unfolding parse_body read_delta is_whole
parse_body-delta_body ss size h few e fits =
    let within : ltb default_limits.max_text_bytes size ≡ false = ground arith in
    >>=-Encodes _ (array-Encodes default_limits 5 3 (omega arith) (omega arith) (omega arith)) (
      checked-Encodes malformed_cbor refl (
        >>=-Encodes _ (unsigned-Encodes 0 (omega arith)) (
          checked-Encodes unsupported_format refl (
            >>=-Encodes _ (unsigned-Encodes size (omega arith)) (
              checked-Encodes limit_exceeded within (
                >>=-Encodes _
                  (array-Encodes default_limits 6 (length ss) (omega arith) few (omega arith))
                  (>>=-Encodes _ (read_segments-Encodes ss size 0 [] h (omega (arith, e)))
                    (return-Encodes _))))))))
