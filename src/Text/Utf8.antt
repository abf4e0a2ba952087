-- ===== src/Text/Utf8.antt =====
-- src/format/text_validation.cpp accepts exactly the UTF-8 encodings of Unicode scalar values.
use mathlib.Core.Path.{subst}
use scpefe.Base.{
  All, All-of_append, Bool-cases, Bytes, List, Option-cases, [], ap, arith, false, if◌then◌else◌,
  inl, inr, length, length-append, ltb, none, refl, some, suc, sym, true, zero, ℕ, ◌%◌, ◌++◌, ◌+◌,
  ◌/◌, ◌<◌, ◌↔◌, ◌∙◌, ◌∷◌, ◌≡◌, ◌≤◌, ◌⊎◌,
}
use scpefe.Text.{code_point, utf8_loop, valid_utf8}

abbrev pub IsByte : ℕ → Type 0
IsByte b = b < 256

abbrev pub IsScalar : ℕ → Type 0
IsScalar c = (c ≤ 0x10_ffff) × ((c < 0xd800) ⊎ (0xdfff < c))

-- The encoding of one scalar value, by the table of the Unicode standard.
unfoldable pub utf8 : ℕ → Bytes
utf8 c =
    if ltb c 0x80
    then c ∷ []
    else if ltb c 0x800
    then (0xc0 + c / 64) ∷ (0x80 + c % 64) ∷ []
    else if ltb c 0x1_0000
    then (0xe0 + c / 4096) ∷ (0x80 + c / 64 % 64) ∷ (0x80 + c % 64) ∷ []
    else (0xf0 + c / 262144) ∷ (0x80 + c / 4096 % 64) ∷ (0x80 + c / 64 % 64) ∷ (0x80 + c % 64) ∷ []

pub utf8_all : List ℕ → Bytes
utf8_all [] = []
utf8_all (c ∷ cs) = utf8 c ++ utf8_all cs

-- The four rows of the table, read by `code_point`.
row_1 : (c : ℕ) (rest : Bytes) → c < 0x80 → code_point (c ∷ rest) ≡ some (c, rest)
unfolding code_point
row_1 c rest h = ground arith

row_2 :
    (c : ℕ) (rest : Bytes)
    → 0x80 ≤ c
    → c < 0x800
    → code_point ((0xc0 + c / 64) ∷ (0x80 + c % 64) ∷ rest) ≡ some (c, rest)
unfolding code_point
row_2 c rest lo hi = ground arith

row_3 :
    (c : ℕ) (rest : Bytes)
    → 0x800 ≤ c
    → c < 0x1_0000
    → IsScalar c
    → code_point ((0xe0 + c / 4096) ∷ (0x80 + c / 64 % 64) ∷ (0x80 + c % 64) ∷ rest)
      ≡ some (c, rest)
unfolding code_point
row_3 c rest lo hi sc = ground arith

row_4 :
    (c : ℕ) (rest : Bytes)
    → 0x1_0000 ≤ c
    → c ≤ 0x10_ffff
    → code_point (
        (0xf0 + c / 262144)
        ∷ (0x80 + c / 4096 % 64)
        ∷ (0x80 + c / 64 % 64)
        ∷ (0x80 + c % 64)
        ∷ rest)
      ≡ some (c, rest)
unfolding code_point
row_4 c rest lo hi = ground arith

pub code_point-utf8 :
    (c : ℕ) (rest : Bytes) → IsScalar c → code_point (utf8 c ++ rest) ≡ some (c, rest)
unfolding utf8
code_point-utf8 c rest sc = elim (Bool-cases (ltb c 0x80)) [
  | inl one ↦ rw one (row_1 c rest (ground arith))
  | inr w ↦ rw w (elim (Bool-cases (ltb c 0x800)) [
    | inl two ↦ rw two (row_2 c rest (ground arith) (ground arith))
    | inr x ↦ rw x (elim (Bool-cases (ltb c 0x1_0000)) [
      | inl three ↦ rw three (row_3 c rest (ground arith) (ground arith) sc)
      | inr y ↦ rw y (row_4 c rest (ground arith) sc.0)
    ])
  ])
]

-- What a round that succeeds has read.
abbrev Spells : Bytes → ℕ → Bytes → Type 0
Spells bs c rest = (bs ≡ utf8 c ++ rest) × IsScalar c

spells :
    (bs : Bytes) (c : ℕ) (rest : Bytes)
    → All IsByte bs
    → code_point bs ≡ some (c, rest)
    → Spells bs c rest
unfolding code_point utf8
spells [] c rest h e = cc
spells (a ∷ []) c rest h e = ground arith
spells (a ∷ b ∷ []) c rest h e = ground arith
spells (a ∷ b ∷ d ∷ []) c rest h e = ground arith
spells (a ∷ b ∷ d ∷ f ∷ bs) c rest h e = ground arith

length-utf8_pos : (c : ℕ) → 1 ≤ length (utf8 c)
unfolding utf8
length-utf8_pos c = ground arith

utf8_loop_step :
    (fuel c : ℕ) (bs rest : Bytes)
    → code_point bs ≡ some (c, rest)
    → utf8_loop (suc fuel) bs ≡ utf8_loop fuel rest
unfolding utf8_loop
utf8_loop_step fuel c [] rest e = unfold code_point in cc
utf8_loop_step fuel c (b ∷ bs) rest e = rw (utf8_loop, e)

utf8_loop_stop :
    (fuel b : ℕ) (bs : Bytes) → code_point (b ∷ bs) ≡ none → utf8_loop (suc fuel) (b ∷ bs) ≡ false
unfolding utf8_loop
utf8_loop_stop fuel b bs n = rw (utf8_loop, n)

utf8_loop-utf8_all :
    (fuel : ℕ) (cs : List ℕ)
    → All IsScalar cs
    → length (utf8_all cs) ≤ fuel
    → utf8_loop fuel (utf8_all cs) ≡ true
unfolding utf8_all
utf8_loop-utf8_all fuel [] h enough = unfold utf8_loop in refl
utf8_loop-utf8_all zero (c ∷ cs) (hc, hcs) enough =
    absurd (omega (arith, length-append (utf8 c) (utf8_all cs), length-utf8_pos c))
utf8_loop-utf8_all (suc fuel) (c ∷ cs) (hc, hcs) enough =
    utf8_loop_step fuel c _ _ (code_point-utf8 c (utf8_all cs) hc)
    ∙ utf8_loop-utf8_all fuel cs hcs
        (omega (arith, length-append (utf8 c) (utf8_all cs), length-utf8_pos c))

utf8_loop_sound :
    (fuel : ℕ) (bs : Bytes)
    → All IsByte bs
    → utf8_loop fuel bs ≡ true
    → (cs : List ℕ) × All IsScalar cs × (bs ≡ utf8_all cs)
unfolding utf8_all utf8_loop
utf8_loop_sound fuel [] h e = ([], tt, refl)
utf8_loop_sound zero (b ∷ bs) h e = cc
utf8_loop_sound (suc fuel) (b ∷ bs) h e = elim (Option-cases (code_point (b ∷ bs))) [
  | inl n ↦ cc (utf8_loop_stop fuel b bs n)
  | inr ((c, rest), n) ↦
      let (w, sc) = spells (b ∷ bs) c rest h n in
      let (cs, all, q) =
        utf8_loop_sound fuel rest (All-of_append IsByte (utf8 c) rest (subst (All IsByte) w h)).1
          (sym (utf8_loop_step fuel c (b ∷ bs) rest n) ∙ e) in
      (c ∷ cs, (sc, all), w ∙ ap (◌++◌ (utf8 c)) q)
]

-- `valid_utf8` accepts a byte sequence exactly if it is the encoding of scalar values: it accepts
-- every such encoding, and what it accepts is one.
pub valid_utf8_iff :
    (bs : Bytes)
    → All IsByte bs
    → (valid_utf8 bs ≡ true) ↔ ((cs : List ℕ) × All IsScalar cs × (bs ≡ utf8_all cs))
unfolding valid_utf8
valid_utf8_iff bs h = (
  utf8_loop_sound (length bs) bs h,
  λ (cs, sc, e). rw e (utf8_loop-utf8_all (length (utf8_all cs)) cs sc (omega arith)),
)
