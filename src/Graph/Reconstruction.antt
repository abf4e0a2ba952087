-- ===== src/Graph/Reconstruction.antt =====
-- The reconstruction of content in src/format/revision_graph.cpp ends, and yields document text.
use scpefe.Base.{
  All, Bytes, List, Option, Option-cases, Outcome, Outcome-cases, [], ap, arith, drop, err, fault,
  get_elem?, inl, inr, length, none, ok, refl, some, suc, sym, take, true, zero, ℕ, ◌+◌, ◌-◌, ◌<◌,
  ◌∙◌, ◌∷◌, ◌≡◌, ◌≢◌, ◌≤◌, ◌⊎◌,
}
use scpefe.Cbor.Limits.{RevisionError, RevisionLimits}
use scpefe.Cbor.Reader.{text}
use scpefe.Graph.Body.{is_whole}
use scpefe.Graph.Content.{
  Anchor, anchor_step, apply_delta, body_of, find_anchor, find_index, forward, forward_step, here,
  is_content, nowhere, parent, piece, pieces, reconstruct_at, replay,
}
use scpefe.Graph.Records.{RevisionId, RevisionRecord, Segment}

get_elem?-lt :
    {A : Type 0} (xs : List A) (i : ℕ) → i < length xs → (a : A) × (get_elem? xs i ≡ some a)
get_elem?-lt [] i h = absurd (omega arith)
get_elem?-lt (x ∷ xs) zero h = (x, refl)
get_elem?-lt (x ∷ xs) (suc i) h = get_elem?-lt xs i (omega arith)

find_index-lt :
    (id : RevisionId) (rs : List RevisionRecord) {j : ℕ} → find_index id rs ≡ some j → j < length rs
unfolding find_index
find_index-lt id [] e = cc
find_index-lt id (r ∷ rs) {j} e = elim (Option-cases (find_index id rs)) [
  | inl n ↦ ground arith
  | inr (k, q) ↦ ground (arith, find_index-lt id rs q)
]

length-take_le : {A : Type 0} (n : ℕ) (xs : List A) → length (take n xs) ≤ n
length-take_le zero xs = omega arith
length-take_le (suc n) [] = omega arith
length-take_le (suc n) (x ∷ xs) = omega (arith, length-take_le n xs)

-- A parent stands before the record.
anchor_step-parent :
    (records : List RevisionRecord) (i : ℕ) {j : ℕ} → anchor_step records i ≡ ok (parent j) → j < i
unfolding anchor_step
anchor_step-parent records i {j} e = elim (Option-cases (get_elem? records i)) [
  | inl n ↦ absurd (ground arith)
  | inr (r, q) ↦ elim (Option-cases r.fields.content_parent) [
    | inl n ↦ absurd (ground arith)
    | inr (id, p) ↦ elim (Option-cases (find_index id (take i records))) [
      | inl n ↦ absurd (ground arith)
      | inr (k, f) ↦ ground (arith, find_index-lt id (take i records) f, length-take_le i records)
    ]
  ]
]

anchor_step-ne-fault :
    (records : List RevisionRecord) (i : ℕ) → i < length records → anchor_step records i ≢ fault
unfolding anchor_step
anchor_step-ne-fault records i h e = let (r, q) = get_elem?-lt records i h in ground arith

after_step :
    (fuel : ℕ) (records : List RevisionRecord) (i : ℕ) (a : Anchor)
    → anchor_step records i ≡ ok a
    → ((a ≡ here) × (find_anchor (suc fuel) records i ≡ ok (some i)))
      ⊎ (((a ≡ nowhere) × (find_anchor (suc fuel) records i ≡ ok none))
          ⊎ ((j : ℕ) × (a ≡ parent j)
              × (find_anchor (suc fuel) records i ≡ find_anchor fuel records j)))
unfolding find_anchor
after_step fuel records i here e = inl (refl, rw (e, find_anchor) refl)
after_step fuel records i nowhere e = inr (inl (refl, rw (e, find_anchor) refl))
after_step fuel records i (parent j) e = inr (inr (j, refl, rw (e, find_anchor) refl))

-- What the search returns is a record at or before the start.
abbrev Bounded : Outcome RevisionError (Option ℕ) → ℕ → Type 0
Bounded o i = (o ≢ fault) × ((j : ℕ) → o ≡ ok (some j) → j ≤ i)

find_anchor-Bounded :
    (fuel : ℕ) (records : List RevisionRecord) (i : ℕ)
    → i < fuel
    → i < length records
    → Bounded (find_anchor fuel records i) i
find_anchor-Bounded zero records i h l = absurd (omega arith)
find_anchor-Bounded (suc fuel) records i h l = elim (Outcome-cases (anchor_step records i)) [
  | inl (a, e) ↦ elim (after_step fuel records i a e) [
    | inl (q, f) ↦ rw f ((λ x. cc), (λ j x. ground arith))
    | inr (inl (q, f)) ↦ rw f ((λ x. cc), (λ j x. cc))
    | inr (inr (j, q, f)) ↦
        let below = anchor_step-parent records i (e ∙ ap ok q) in
        let (total, bound) = find_anchor-Bounded fuel records j (omega arith) (omega arith) in
        rw f (total, (λ k x. omega (arith, bound k x)))
  ]
  | inr (inl (x, e)) ↦
      let f : find_anchor (suc fuel) records i ≡ err x =
        unfold find_anchor in rw (e, find_anchor) refl in
      rw f ((λ x. cc), (λ j x. cc))
  | inr (inr e) ↦ absurd (anchor_step-ne-fault records i l e)
]

pieces-ne-fault : (source : Bytes) (ss : List Segment) → pieces source ss ≢ fault
unfolding pieces piece
pieces-ne-fault source [] e = cc
pieces-ne-fault source (s ∷ ss) e = ground (arith, pieces-ne-fault source ss)

pub apply_delta-ne-fault :
    (limits : RevisionLimits) (r : RevisionRecord) (source : Bytes)
    → apply_delta limits r source ≢ fault
unfolding apply_delta
apply_delta-ne-fault limits r source e = ground (arith, pieces-ne-fault source (body_of r).segments)

apply_delta-is_content :
    (limits : RevisionLimits) (r : RevisionRecord) (source : Bytes) {next : Bytes}
    → apply_delta limits r source ≡ ok next
    → is_content limits next ≡ true
unfolding apply_delta
apply_delta-is_content limits r source e = ground arith

-- A record that keeps its whole text keeps document text.
abbrev pub KeepsText : RevisionLimits → RevisionRecord → Type 0
KeepsText limits r = is_whole r.storage ≡ true → is_content limits (body_of r).text ≡ true

-- The result of a reconstruction that does not read an absent record, and is document text.
abbrev pub IsText : RevisionLimits → Outcome RevisionError (Option Bytes) → Type 0
IsText limits o =
    (o ≢ fault) × ((text : Bytes) → o ≡ ok (some text) → is_content limits text ≡ true)

module _ (hash : Bytes → Bytes) (limits : RevisionLimits) where
  forward_step-IsText :
      (text : Bytes) (r : RevisionRecord)
      → is_content limits text ≡ true
      → KeepsText limits r
      → IsText limits (forward_step hash limits text r)
  unfolding forward_step
  forward_step-IsText text r h k = elim (Outcome-cases (apply_delta limits r text)) [
    | inl (next, e) ↦
        let good = apply_delta-is_content limits r text e in
        ((λ x. ground arith), (λ t x. ground arith))
    | inr (inl (y, e)) ↦ ((λ x. ground arith), (λ t x. ground arith))
    | inr (inr e) ↦ absurd (apply_delta-ne-fault limits r text e)
  ]

  forward-IsText :
      (text : Bytes) (rs : List RevisionRecord)
      → is_content limits text ≡ true
      → All (KeepsText limits) rs
      → IsText limits (forward hash limits text rs)
  unfolding forward
  forward-IsText text [] h k = ((λ x. cc), (λ t x. ground arith))
  forward-IsText text (r ∷ rs) h (k, ks) =
      let (total, good) = forward_step-IsText text r h k in
      elim (Outcome-cases (forward_step hash limits text r)) [
        | inl (none, e) ↦ rw (e, forward) ((λ x. cc), (λ t x. cc))
        | inl (some next, e) ↦ rw (e, forward) (forward-IsText next rs (good next e) ks)
        | inr (inl (y, e)) ↦ rw (e, forward) ((λ x. cc), (λ t x. cc))
        | inr (inr e) ↦ absurd (total e)
      ]

anchor_step-here :
    (records : List RevisionRecord) (i : ℕ) {r : RevisionRecord}
    → get_elem? records i ≡ some r
    → anchor_step records i ≡ ok here
    → is_whole r.storage ≡ true
unfolding anchor_step
anchor_step-here records i {r} q e = elim (Option-cases r.fields.content_parent) [
  | inl n ↦ ground arith
  | inr (id, p) ↦ elim (Option-cases (find_index id (take i records))) [
    | inl n ↦ ground arith
    | inr (k, f) ↦ ground arith
  ]
]

-- The record that is found keeps its whole text.
find_anchor-is_whole :
    (fuel : ℕ) (records : List RevisionRecord) (i : ℕ) {j : ℕ} {r : RevisionRecord}
    → find_anchor fuel records i ≡ ok (some j)
    → get_elem? records j ≡ some r
    → is_whole r.storage ≡ true
unfolding find_anchor
find_anchor-is_whole zero records i e q = cc
find_anchor-is_whole (suc fuel) records i {j} {r} e q =
    elim (Outcome-cases (anchor_step records i)) [
      | inl (a, s) ↦ elim (after_step fuel records i a s) [
        | inl (p, f) ↦
            let same : i ≡ j = ground arith in
            anchor_step-here records i {r = r} (rw same q) (s ∙ ap ok p)
        | inr (inl (p, f)) ↦ absurd (ground arith)
        | inr (inr (k, p, f)) ↦ find_anchor-is_whole fuel records k (sym f ∙ e) q
      ]
      | inr (inl (x, s)) ↦
          let f : find_anchor (suc fuel) records i ≡ err x = rw (s, find_anchor) refl in
          absurd (ground arith)
      | inr (inr s) ↦
          let f : find_anchor (suc fuel) records i ≡ fault = rw (s, find_anchor) refl in
          absurd (ground arith)
    ]

module _ {A : Type 0} (P : A → Type 0) where
  All-take : (n : ℕ) (xs : List A) → All P xs → All P (take n xs)
  All-take zero xs h = tt
  All-take (suc n) [] h = tt
  All-take (suc n) (x ∷ xs) (h, hs) = (h, All-take n xs hs)

  All-drop : (n : ℕ) (xs : List A) → All P xs → All P (drop n xs)
  All-drop zero xs h = h
  All-drop (suc n) [] h = tt
  All-drop (suc n) (x ∷ xs) (h, hs) = All-drop n xs hs

KeepsText-get_elem? :
    (limits : RevisionLimits) (rs : List RevisionRecord) (i : ℕ) {r : RevisionRecord}
    → All (KeepsText limits) rs
    → get_elem? rs i ≡ some r
    → is_whole r.storage ≡ true
    → is_content limits (body_of r).text ≡ true
KeepsText-get_elem? limits [] i h e w = cc
KeepsText-get_elem? limits (x ∷ rs) zero (h, hs) e w = ground arith
KeepsText-get_elem? limits (x ∷ rs) (suc i) (h, hs) e w = KeepsText-get_elem? limits rs i hs e w

-- Among records that keep document text where they keep their whole text, the reconstruction at any
-- of them ends and reads no absent record, whatever parents they name, and the text that it returns
-- is document text within the limit.
pub reconstruct_at-IsText :
    (hash : Bytes → Bytes) (limits : RevisionLimits) (records : List RevisionRecord) (index : ℕ)
    → index < length records
    → All (KeepsText limits) records
    → IsText limits (reconstruct_at hash limits records index)
unfolding reconstruct_at replay
reconstruct_at-IsText hash limits records index h ks =
    let (wanted, q) = get_elem?-lt records index h in
    let (total, bound) = find_anchor-Bounded (index + 1) records index (omega arith) h in
    elim (Outcome-cases (find_anchor (index + 1) records index)) [
      | inl (none, e) ↦ ((λ x. ground arith), (λ t x. ground arith))
      | inl (some i, e) ↦
          let (r, p) = get_elem?-lt records i (omega (arith, bound i e)) in
          let whole = find_anchor-is_whole (index + 1) records index e p in
          let rest = take (index - i) (drop (i + 1) records) in
          let (ends, good) =
            forward-IsText hash limits (body_of r).text rest
              (KeepsText-get_elem? limits records i ks p whole)
              (All-take (KeepsText limits) (index - i) _
                (All-drop (KeepsText limits) (i + 1) records ks)) in
          ((λ x. ground (arith, ends)), (λ t x. ground (arith, good t)))
      | inr (inl (y, e)) ↦ ((λ x. ground arith), (λ t x. ground arith))
      | inr (inr e) ↦ absurd (total e)
    ]
