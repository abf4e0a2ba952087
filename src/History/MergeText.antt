-- ===== src/History/MergeText.antt =====
-- The delta of `merge_with` of src/format/revision_graph.cpp turns the local text into the merged
-- one.
use mathlib.Core.List.{append-nil, append_assoc, reverse}
use scpefe.Base.{
  Bytes, List, Outcome-cases, [], ap, arith, drop, drop-drop, inl, inr, length, length-drop,
  length-reverse, ok, refl, reverse-take-reverse, suc, sym, take, take-append-drop,
  take-append_length, zero, ℕ, ◌++◌, ◌+◌, ◌-◌, ◌∙◌, ◌∷◌, ◌≡◌, ◌≤◌,
}
use scpefe.Cbor.Reader.{text}
use scpefe.Graph.Content.{piece, pieces}
use scpefe.Graph.Records.{Segment}
use scpefe.History.Delta.{common_prefix, common_suffix, copied, inserted, merge_segments}

pub common_prefix-le :
    (a b : Bytes) → (common_prefix a b ≤ length a) × (common_prefix a b ≤ length b)
unfolding common_prefix
common_prefix-le [] b = ground arith
common_prefix-le (x ∷ xs) [] = ground arith
common_prefix-le (x ∷ xs) (y ∷ ys) = ground (arith, common_prefix-le xs ys)

take-common_prefix : (a b : Bytes) → take (common_prefix a b) a ≡ take (common_prefix a b) b
unfolding common_prefix
take-common_prefix [] b = refl
take-common_prefix (x ∷ xs) [] = refl
take-common_prefix (x ∷ xs) (y ∷ ys) = ground (arith, take-common_prefix xs ys)

-- The ends of what the prefix leaves are the same.
pub common_suffix-drop :
    (a b : Bytes)
    → (let s = common_prefix (reverse a) (reverse b) in
        (s ≤ length a) × (s ≤ length b) × (drop (length a - s) a ≡ drop (length b - s) b))
common_suffix-drop a b =
    let s = common_prefix (reverse a) (reverse b) in
    let (ha, hb) = common_prefix-le (reverse a) (reverse b) in
    let la : s ≤ length a = rw (length-reverse a) at ha in
    let lb : s ≤ length b = rw (length-reverse b) at hb in
    (
      la,
      lb,
      sym (reverse-take-reverse s a la)
          ∙ (ap reverse (take-common_prefix (reverse a) (reverse b)) ∙ reverse-take-reverse s b lb),
    )

pieces-append :
    (source : Bytes) (xs ys : List Segment) (a b : Bytes)
    → pieces source xs ≡ ok a
    → pieces source ys ≡ ok b
    → pieces source (xs ++ ys) ≡ ok (a ++ b)
unfolding pieces
pieces-append source [] ys a b h k = ground arith
pieces-append source (x ∷ xs) ys a b h k = elim (Outcome-cases (piece source x)) [
  | inr failed ↦ absurd (ground arith)
  | inl (p, e) ↦ elim (Outcome-cases (pieces source xs)) [
    | inr failed ↦ absurd (ground arith)
    | inl (q, f) ↦
        let whole : a ≡ p ++ q = ground arith in
        let rest = pieces-append source xs ys q b f k in
        rw (whole, e, rest) (ap ok (sym (append_assoc p q b)))
  ]
]

pieces-copied :
    (source : Bytes) (start count : ℕ)
    → start + count ≤ length source
    → pieces source (copied start count) ≡ ok (take count (drop start source))
unfolding pieces piece
pieces-copied source start zero h = refl
pieces-copied source start (suc count) h =
    ground (arith, append-nil (take (suc count) (drop start source)))

pieces-inserted : (source text : Bytes) → pieces source (inserted text) ≡ ok text
unfolding pieces piece
pieces-inserted source [] = refl
pieces-inserted source (x ∷ xs) = ap ok (append-nil (x ∷ xs))

take-length : (xs : Bytes) (n : ℕ) → length xs ≡ n → take n xs ≡ xs
take-length xs n h = ap (λ k. take k xs) (sym h) ∙ rw (append-nil xs) at (take-append_length xs [])

-- The end of `s` bytes is copied.
copied_end :
    (text : Bytes) (p s : ℕ)
    → p ≤ length text
    → s ≤ length (drop p text)
    → take s (drop (length text - s) text) ≡ drop (length (drop p text) - s) (drop p text)
copied_end text p s h k =
    let size = length-drop p text in
    let start : p + (length (drop p text) - s) ≡ length text - s = omega arith in
    let from = drop-drop p (length (drop p text) - s) text in
    let left : length (drop (length text - s) text) ≡ s =
      length-drop (length text - s) text ∙ omega arith in
    take-length (drop (length text - s) text) s left ∙ sym (rw start at from)

-- A text is cut into the parts before the end of `p`, before the last `s`, and behind.
cut_text :
    (content : Bytes) (p s : ℕ)
    → take p content
        ++ (take (length content - p - s) (drop p content)
            ++ drop (length (drop p content) - s) (drop p content))
      ≡ content
cut_text content p s =
    rw
      (sym (length-drop p content), take-append-drop (length (drop p content) - s) (drop p content))
      (take-append-drop p content)

cut_pieces :
    (text content : Bytes) (p s : ℕ)
    → p ≤ length text
    → take p text ≡ take p content
    → s ≤ length (drop p text)
    → drop (length (drop p text) - s) (drop p text)
      ≡ drop (length (drop p content) - s) (drop p content)
    → pieces text (
        copied 0 p
        ++ (inserted (take (length content - p - s) (drop p content))
            ++ copied (length text - s) s))
      ≡ ok content
cut_pieces text content p s hp starts hs ends =
    let middle = take (length content - p - s) (drop p content) in
    let size = length-drop p text in
    let first : pieces text (copied 0 p) ≡ ok (take p content) =
      pieces-copied text 0 p (omega arith) ∙ ap ok starts in
    let last : pieces text (copied (length text - s) s)
        ≡ ok (drop (length (drop p content) - s) (drop p content)) =
      pieces-copied text (length text - s) s (omega arith)
      ∙ ap ok (copied_end text p s hp hs ∙ ends) in
    pieces-append text (copied 0 p) _ _ _ first
      (pieces-append text (inserted middle) _ _ _ (pieces-inserted text middle) last)
    ∙ ap ok (cut_text content p s)

-- What the delta of a merge turns the text into.
pub pieces-merge_segments :
    (text content : Bytes) → pieces text (merge_segments text content) ≡ ok content
unfolding merge_segments common_suffix
pieces-merge_segments text content =
    let p = common_prefix text content in
    let (pt, pc) = common_prefix-le text content in
    let (st, sc, ends) = common_suffix-drop (drop p text) (drop p content) in
    cut_pieces text content p (common_prefix (reverse (drop p text)) (reverse (drop p content))) pt
      (take-common_prefix text content) st ends
