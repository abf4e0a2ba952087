-- ===== src/History/MergeBody.antt =====
-- The body that `merge_with` of src/format/revision_graph.cpp writes, read by `parse_body` and
-- applied by `apply_delta` to the local text.
use scpefe.Base.{
  All, All-append, Bytes, List, [], arith, drop, false, length, length-append, length-drop,
  length-take, ok, refl, some, suc, take, true, zero, ℕ, ◌++◌, ◌+◌, ◌-◌, ◌<◌, ◌==◌, ◌^◌, ◌∷◌, ◌≡◌,
  ◌≤◌,
}
use scpefe.Cbor.Items.{ReadsBack}
use scpefe.Cbor.Limits.{default_limits}
use scpefe.Cbor.Reader.{bytes, text}
use scpefe.Graph.Body.{parse_body}
use scpefe.Graph.Content.{apply_delta, is_content}
use scpefe.Graph.Records.{Body, RevisionRecord, Segment}
use scpefe.History.Delta.{
  common_prefix, common_suffix, copied, delta_body, inserted, merge_segments,
}
use scpefe.History.DeltaRoundTrip.{
  IsWritten, copies-Encodes, inserts-Encodes, parse_body-delta_body, total_count,
}
use scpefe.History.MergeText.{common_prefix-le, common_suffix-drop, pieces-merge_segments}

total_count-append :
    (xs ys : List Segment) → total_count (xs ++ ys) ≡ total_count xs + total_count ys
unfolding total_count
total_count-append [] ys = omega arith
total_count-append (x ∷ xs) ys = omega (arith, total_count-append xs ys)

total_count-copied : (start count : ℕ) → total_count (copied start count) ≡ count
unfolding total_count
total_count-copied start zero = refl
total_count-copied start (suc count) = ground arith

total_count-inserted : (text : Bytes) → total_count (inserted text) ≡ length text
unfolding total_count
total_count-inserted [] = refl
total_count-inserted (x ∷ xs) = ground arith

copied-IsWritten :
    (start count : ℕ)
    → count < 2 ^ 64
    → start < 2 ^ 64
    → All IsWritten (copied start count) × (length (copied start count) ≤ 1)
copied-IsWritten start zero h k = (tt, omega arith)
copied-IsWritten start (suc count) h k =
    let some_byte : (suc count == 0) ≡ false = ground arith in
    rw some_byte ((copies-Encodes start (suc count) (omega arith) h k, tt), omega arith)

inserted-IsWritten :
    (text : Bytes)
    → length text ≤ default_limits.max_text_bytes
    → All IsWritten (inserted text) × (length (inserted text) ≤ 1)
inserted-IsWritten [] h = (tt, omega arith)
inserted-IsWritten (x ∷ xs) h = ((inserts-Encodes (x ∷ xs) (ground arith) h, tt), omega arith)

-- The sizes of the parts.
merge_sizes :
    (text content : Bytes)
    → (let p = common_prefix text content in
        let s = common_suffix text content p in
        (p ≤ length text) × (p + s ≤ length content) × (s ≤ length text))
unfolding common_suffix
merge_sizes text content =
    let p = common_prefix text content in
    let (pt, pc) = common_prefix-le text content in
    let (st, sc, ends) = common_suffix-drop (drop p text) (drop p content) in
    let lt = length-drop p text in let lc = length-drop p content in (pt, omega arith, omega arith)

merge_segments-IsWritten :
    (text content : Bytes)
    → length text ≤ default_limits.max_text_bytes
    → length content ≤ default_limits.max_text_bytes
    → All IsWritten (merge_segments text content)
      × (length (merge_segments text content) ≤ 3)
      × (total_count (merge_segments text content) ≡ length content)
unfolding merge_segments
merge_segments-IsWritten text content ht hc =
    let p = common_prefix text content in
    let s = common_suffix text content p in
    let (pt, pc, st) = merge_sizes text content in
    let middle = take (length content - p - s) (drop p content) in
    let size : length middle ≡ length content - p - s =
      length-take (length content - p - s) (drop p content)
        (omega (arith, length-drop p content)) in
    let (w1, l1) = copied-IsWritten 0 p (omega arith) (omega arith) in
    let (w2, l2) = inserted-IsWritten middle (omega arith) in
    let (w3, l3) = copied-IsWritten (length text - s) s (omega arith) (omega arith) in
    let tail = inserted middle ++ copied (length text - s) s in
    let both = All-append IsWritten (inserted middle) (copied (length text - s) s) w2 w3 in
    (
      All-append IsWritten (copied 0 p) tail w1 both,
      omega (
        arith,
        length-append (copied 0 p) tail,
        length-append (inserted middle) (copied (length text - s) s),
      ),
      omega (
        arith,
        total_count-append (copied 0 p) tail,
        total_count-append (inserted middle) (copied (length text - s) s),
        total_count-copied 0 p,
        total_count-inserted middle,
        total_count-copied (length text - s) s,
      ),
    )

-- What the decoder makes of the body of a merge.
abbrev pub merge_body : Bytes → Bytes → Body
merge_body text content = record {
  size = length content;
  text = [];
  segments = merge_segments text content;
}

-- The body that `merge_with` writes, for a local text within the limit of a text and for document
-- text within that limit, is read back whatever follows it; and a record that has the body which
-- was read turns the local text into the merged one.
pub apply_delta-parse_body :
    (text content bytes : Bytes) (r : RevisionRecord)
    → length text ≤ default_limits.max_text_bytes
    → is_content default_limits content ≡ true
    → r.body ≡ some (merge_body text content, bytes)
    → ReadsBack
        (parse_body default_limits 2)
        (delta_body (length content) (merge_segments text content))
        (merge_body text content)
      × (apply_delta default_limits r text ≡ ok content)
unfolding delta_body apply_delta is_content
apply_delta-parse_body text content bytes r ht hc e =
    let size : length content ≤ default_limits.max_text_bytes = ground arith in
    let (written, few, total) = merge_segments-IsWritten text content ht size in
    (
      (parse_body-delta_body (merge_segments text content) (length content) written (omega arith)
          total size).reads,
      ground (arith, pieces-merge_segments text content),
    )
