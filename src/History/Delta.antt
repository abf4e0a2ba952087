-- ===== src/History/Delta.antt =====
-- The delta that `merge_with` of src/format/revision_graph.cpp writes as the body of a merge.
-- The length of the common prefix.
use mathlib.Core.List.{reverse}
use scpefe.Base.{
  Bytes, List, [], drop, false, if◌then◌else◌, is_empty, length, suc, take, true, ℕ, ◌++◌, ◌-◌,
  ◌==◌, ◌∷◌,
}
use scpefe.Cbor.Reader.{text}
use scpefe.Cbor.Writer.{Writes, put_array, put_bytes, put_unsigned, ◌▷◌}
use scpefe.Graph.Records.{Segment}

unfoldable pub common_prefix : Bytes → Bytes → ℕ
common_prefix [] _ = 0
common_prefix (x ∷ xs) [] = 0
common_prefix (x ∷ xs) (y ∷ ys) = let rest = common_prefix xs ys in if x == y then suc rest else 0

-- The common suffix of what the prefix leaves; the source walks it from the ends.
unfoldable pub common_suffix : Bytes → Bytes → ℕ → ℕ
unfolding common_prefix
common_suffix text content prefix =
    common_prefix (reverse (drop prefix text)) (reverse (drop prefix content))

abbrev pub copy_of : ℕ → ℕ → Segment
copy_of start count = record { inserts = false; start = start; count = count; text = [] }

abbrev pub insertion : Bytes → Segment
insertion text = record { inserts = true; start = 0; count = length text; text = text }

-- The copied or inserted part of a merge delta, where it is not empty.
abbrev pub copied : ℕ → ℕ → List Segment
copied start count = if count == 0 then [] else copy_of start count ∷ []

abbrev pub inserted : Bytes → List Segment
inserted text = if is_empty text then [] else insertion text ∷ []

-- The segments that are written, which `put_segment` encodes.
unfoldable pub merge_segments : Bytes → Bytes → List Segment
unfolding common_prefix common_suffix
merge_segments text content =
    let prefix = common_prefix text content in
    let suffix = common_suffix text content prefix in
    copied 0 prefix
    ++ (inserted (take (length content - prefix - suffix) (drop prefix content))
        ++ copied (length text - suffix) suffix)

unfoldable pub put_segment : Segment → Writes
put_segment s output =
    if s.inserts
    then output ▷ put_array 2 ▷ put_unsigned 1 ▷ put_bytes s.text
    else output ▷ put_array 3 ▷ put_unsigned 0 ▷ put_unsigned s.start ▷ put_unsigned s.count

unfoldable pub put_segments : List Segment → Writes
unfolding put_segment
put_segments [] output = output
put_segments (s ∷ ss) output = put_segments ss (output ▷ put_segment s)

unfoldable pub delta_body : ℕ → List Segment → Bytes
unfolding put_segments
delta_body size segments =
    []
    ▷ put_array 3
    ▷ put_unsigned 0
    ▷ put_unsigned size
    ▷ put_array (length segments)
    ▷ put_segments segments
