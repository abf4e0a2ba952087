-- ===== src/Cbor/Canonical.antt =====
-- src/format/cbor_reader.cpp accepts one spelling of each header: the writer's.
use scpefe.Base.{
  All, Bytes, [], arith, inl, inr, length, ok, ℕ, ◌%◌, ◌*◌, ◌++◌, ◌+◌, ◌/◌, ◌<◌, ◌^◌, ◌∷◌, ◌≡◌, ◌≤◌,
  ◌⊎◌,
}
use scpefe.Cbor.Reader.{head, long_head, minimum, width}
use scpefe.Cbor.Reading.{Reader, at}
use scpefe.Cbor.Writer.{header}
use scpefe.Cbor.Reader
use scpefe.Cbor.Writer

abbrev pub IsByte : ℕ → Type 0
IsByte b = b < 256

-- The value bytes that the reader took are those that the writer gives for the value.
abbrev Spelled : ℕ → Bytes → ℕ → ℕ → Reader → Type 0
Spelled count bs n v s =
    (bs ≡ Writer.big_endian count v ++ s.rest) × (s.position ≡ n + count) × (v < 256 ^ count)

value_bytes_1 :
    (bs : Bytes) (n v : ℕ) (s : Reader)
    → All IsByte bs
    → Reader.big_endian 1 0 (at bs n) ≡ ok (v, s)
    → Spelled 1 bs n v s
unfolding Reader.big_endian Writer.big_endian
value_bytes_1 [] n v s h e = cc
value_bytes_1 (a ∷ bs) n v s h e = ground arith

value_bytes_2 :
    (bs : Bytes) (n v : ℕ) (s : Reader)
    → All IsByte bs
    → Reader.big_endian 2 0 (at bs n) ≡ ok (v, s)
    → Spelled 2 bs n v s
unfolding Reader.big_endian Writer.big_endian
value_bytes_2 (a ∷ b ∷ bs) n v s h e = ground arith
value_bytes_2 _ n v s h e = ground arith

value_bytes_4 :
    (bs : Bytes) (n v : ℕ) (s : Reader)
    → All IsByte bs
    → Reader.big_endian 4 0 (at bs n) ≡ ok (v, s)
    → Spelled 4 bs n v s
unfolding Reader.big_endian Writer.big_endian
value_bytes_4 (a ∷ b ∷ c ∷ d ∷ bs) n v s h e = ground arith
value_bytes_4 _ n v s h e = ground arith

value_bytes_8 :
    (bs : Bytes) (n v : ℕ) (s : Reader)
    → All IsByte bs
    → Reader.big_endian 8 0 (at bs n) ≡ ok (v, s)
    → Spelled 8 bs n v s
unfolding Reader.big_endian Writer.big_endian
value_bytes_8 (a ∷ b ∷ c ∷ d ∷ p ∷ q ∷ x ∷ y ∷ bs) n v s h e = ground arith
value_bytes_8 _ n v s h e = ground arith

-- The two forms of a header that was accepted.
HeadForm : ℕ → ℕ → Bytes → ℕ → ℕ → Reader → Type 0
HeadForm major b bs n v s =
    (b / 32 ≡ major)
    × (((b % 32 < 24) × (v ≡ b % 32) × (s ≡ at bs (n + 1)))
        ⊎ ((24 ≤ b % 32)
            × (b % 32 < 28)
            × (long_head (width (b % 32)) (at bs (n + 1)) ≡ ok (v, s))))

head_form :
    (major b n v : ℕ) (bs : Bytes) (s : Reader)
    → head major (at (b ∷ bs) n) ≡ ok (v, s)
    → HeadForm major b bs n v s
unfolding HeadForm head
head_form major b n v bs s e = ground arith

long_head_inv :
    (count v : ℕ) (r s : Reader)
    → long_head count r ≡ ok (v, s)
    → (Reader.big_endian count 0 r ≡ ok (v, s)) × (minimum count ≤ v)
unfolding long_head
long_head_inv count v r s e = ground arith

-- The bytes before the position of `s` are the writer's header for `v`.
abbrev pub Wrote : ℕ → Bytes → ℕ → ℕ → Reader → Type 0
Wrote major bs n v s =
    (bs ≡ header major v ++ s.rest) × (s.position ≡ n + length (header major v)) × (v < 2 ^ 64)

header_back_1 :
    (major b n v : ℕ) (bs : Bytes) (s : Reader)
    → b < 256
    → b ≡ major * 32 + 24
    → 24 ≤ v
    → Spelled 1 bs (n + 1) v s
    → Wrote major (b ∷ bs) n v s
unfolding header
header_back_1 major b n v bs s hb hm least (e, p, u) = rw e (ground arith)

header_back_2 :
    (major b n v : ℕ) (bs : Bytes) (s : Reader)
    → b < 256
    → b ≡ major * 32 + 25
    → 0x100 ≤ v
    → Spelled 2 bs (n + 1) v s
    → Wrote major (b ∷ bs) n v s
unfolding header
header_back_2 major b n v bs s hb hm least (e, p, u) = rw e (ground arith)

header_back_4 :
    (major b n v : ℕ) (bs : Bytes) (s : Reader)
    → b < 256
    → b ≡ major * 32 + 26
    → 0x1_0000 ≤ v
    → Spelled 4 bs (n + 1) v s
    → Wrote major (b ∷ bs) n v s
unfolding header
header_back_4 major b n v bs s hb hm least (e, p, u) = rw e (ground arith)

header_back_8 :
    (major b n v : ℕ) (bs : Bytes) (s : Reader)
    → b < 256
    → b ≡ major * 32 + 27
    → 0x1_0000_0000 ≤ v
    → Spelled 8 bs (n + 1) v s
    → Wrote major (b ∷ bs) n v s
unfolding header
header_back_8 major b n v bs s hb hm least (e, p, u) = rw e (ground arith)

wide_1 :
    (major b n v : ℕ) (bs : Bytes) (s : Reader)
    → All IsByte (b ∷ bs)
    → b ≡ major * 32 + 24
    → long_head 1 (at bs (n + 1)) ≡ ok (v, s)
    → Wrote major (b ∷ bs) n v s
wide_1 major b n v bs s (hb, hbs) hm e =
    let (value, least) = long_head_inv 1 v (at bs (n + 1)) s e in
    header_back_1 major b n v bs s hb hm least (value_bytes_1 bs (n + 1) v s hbs value)

wide_2 :
    (major b n v : ℕ) (bs : Bytes) (s : Reader)
    → All IsByte (b ∷ bs)
    → b ≡ major * 32 + 25
    → long_head 2 (at bs (n + 1)) ≡ ok (v, s)
    → Wrote major (b ∷ bs) n v s
wide_2 major b n v bs s (hb, hbs) hm e =
    let (value, least) = long_head_inv 2 v (at bs (n + 1)) s e in
    header_back_2 major b n v bs s hb hm least (value_bytes_2 bs (n + 1) v s hbs value)

wide_4 :
    (major b n v : ℕ) (bs : Bytes) (s : Reader)
    → All IsByte (b ∷ bs)
    → b ≡ major * 32 + 26
    → long_head 4 (at bs (n + 1)) ≡ ok (v, s)
    → Wrote major (b ∷ bs) n v s
wide_4 major b n v bs s (hb, hbs) hm e =
    let (value, least) = long_head_inv 4 v (at bs (n + 1)) s e in
    header_back_4 major b n v bs s hb hm least (value_bytes_4 bs (n + 1) v s hbs value)

wide_8 :
    (major b n v : ℕ) (bs : Bytes) (s : Reader)
    → All IsByte (b ∷ bs)
    → b ≡ major * 32 + 27
    → long_head 8 (at bs (n + 1)) ≡ ok (v, s)
    → Wrote major (b ∷ bs) n v s
wide_8 major b n v bs s (hb, hbs) hm e =
    let (value, least) = long_head_inv 8 v (at bs (n + 1)) s e in
    header_back_8 major b n v bs s hb hm least (value_bytes_8 bs (n + 1) v s hbs value)

info_cases : (i : ℕ) → 24 ≤ i → i < 28 → (i ≡ 24) ⊎ ((i ≡ 25) ⊎ ((i ≡ 26) ⊎ (i ≡ 27)))
info_cases i lo hi = ground arith

wide_form :
    (major b n v : ℕ) (bs : Bytes) (s : Reader)
    → All IsByte (b ∷ bs)
    → b / 32 ≡ major
    → 24 ≤ b % 32
    → b % 32 < 28
    → long_head (width (b % 32)) (at bs (n + 1)) ≡ ok (v, s)
    → Wrote major (b ∷ bs) n v s
wide_form major b n v bs s h hm lo hi e = elim (info_cases (b % 32) lo hi) [
  | inl i ↦ wide_1 major b n v bs s h (omega arith) (rw i at e)
  | inr (inl i) ↦ wide_2 major b n v bs s h (omega arith) (rw i at e)
  | inr (inr (inl i)) ↦ wide_4 major b n v bs s h (omega arith) (rw i at e)
  | inr (inr (inr i)) ↦ wide_8 major b n v bs s h (omega arith) (rw i at e)
]

-- The converse of `head-header`: on bytes, a header that is accepted is the one that the writer
-- gives for its value, and the position is the one behind it.
pub head-Wrote :
    (major b n v : ℕ) (bs : Bytes) (s : Reader)
    → All IsByte (b ∷ bs)
    → head major (at (b ∷ bs) n) ≡ ok (v, s)
    → Wrote major (b ∷ bs) n v s
unfolding HeadForm
head-Wrote major b n v bs s h e = elim (head_form major b n v bs s e).1 [
  | inl (lo, hv, hs) ↦
      rw (hv, hs) (unfold header in ground (arith, (head_form major b n v bs s e).0))
  | inr (lo, hi, hl) ↦ wide_form major b n v bs s h (head_form major b n v bs s e).0 lo hi hl
]
