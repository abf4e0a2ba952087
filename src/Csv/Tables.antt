-- ===== src/Csv/Tables.antt =====
-- Rendered tables and src/format/csv_source.hpp.
use mathlib.Core.List.{append-nil, append_assoc}
use scpefe.Base.{
  All, Bool, Bool-cases, Bytes, List, [], ap, arith, false, if◌then◌else◌, inl, inr, length, none,
  refl, some, suc, sym, true, ℕ, ◌&&◌, ◌++◌, ◌+◌, ◌==◌, ◌∙◌, ◌∷◌, ◌≡◌, ◌≢◌, ◌⊎◌,
}
use scpefe.Csv.{
  CsvState, accepts, carriage_return, close_quote, comma, csv_loop, ends_line, line_feed, outside,
  quote, start, valid_csv_source,
}

-- A cell of a table: its text in quotes, or as it is.
pub data Cell : Type 0 where
  in_quotes as_is : Bytes → Cell

pub escape : Bytes → Bytes
escape [] = []
escape (c ∷ cs) = if c == quote then quote ∷ quote ∷ escape cs else c ∷ escape cs

pub render_cell : Cell → Bytes
unfolding escape
render_cell (in_quotes v) = quote ∷ escape v ++ (quote ∷ [])
render_cell (as_is v) = v

abbrev pub IsPlain : ℕ → Type 0
IsPlain c = (c ≢ carriage_return) × (c ≢ quote) × (c ≢ comma) × (c ≢ line_feed)

abbrev pub IsCell : Cell → Type 0
IsCell (in_quotes v) = All (λ c. c ≢ carriage_return) v
IsCell (as_is v) = All IsPlain v

-- A row is a first cell and the others.
abbrev pub Row : Type 0
Row = Cell × List Cell

pub render_row : Cell → List Cell → Bytes
unfolding render_cell
render_row c [] = render_cell c ++ (line_feed ∷ [])
render_row c (d ∷ ds) = render_cell c ++ comma ∷ render_row d ds

pub render : List Row → Bytes
unfolding render_row
render [] = []
render ((c, cs) ∷ rows) = render_row c cs ++ render rows

abbrev pub IsTable : List Row → Type 0
IsTable = All λ row. IsCell row.0 × All IsCell row.1

abbrev pub width : Row → ℕ
width row = suc (length row.1)

abbrev pub same_width : ℕ → List Row → Bool
same_width n [] = true
same_width n (row ∷ rows) = n == width row && same_width n rows

abbrev mk : ℕ → ℕ → Bool → Bool → Bool → Bool → CsvState
mk h n q a st any = record {
  headings = h;
  cells = n;
  quoted = q;
  after_quote = a;
  at_start = st;
  any_row = any;
}

step_out :
    (s t : CsvState) (c : ℕ) (rest : Bytes)
    → s.quoted ≡ false
    → c ≢ carriage_return
    → outside s c ≡ some t
    → csv_loop s (c ∷ rest) ≡ csv_loop t rest
unfolding csv_loop
step_out s t c [] q h e = ground arith
step_out s t c (d ∷ rest) q h e = ground arith

step_in :
    (s : CsvState) (c : ℕ) (rest : Bytes)
    → s.quoted ≡ true
    → c ≢ carriage_return
    → c ≢ quote
    → csv_loop s (c ∷ rest) ≡ csv_loop s rest
unfolding csv_loop
step_in s c [] q h n = ground arith
step_in s c (d ∷ rest) q h n = ground arith

step_double :
    (s : CsvState) (rest : Bytes)
    → s.quoted ≡ true
    → csv_loop s (quote ∷ quote ∷ rest) ≡ csv_loop s rest
unfolding csv_loop
step_double s rest q = ground arith

step_close :
    (s : CsvState) (d : ℕ) (rest : Bytes)
    → s.quoted ≡ true
    → d ≢ quote
    → csv_loop s (quote ∷ d ∷ rest) ≡ csv_loop (close_quote s) (d ∷ rest)
unfolding csv_loop
step_close s d rest q n = ground arith

csv_loop-escape :
    (s : CsvState) (v : Bytes) (d : ℕ) (rest : Bytes)
    → s.quoted ≡ true
    → d ≢ quote
    → All (λ c. c ≢ carriage_return) v
    → csv_loop s (escape v ++ quote ∷ d ∷ rest) ≡ csv_loop (close_quote s) (d ∷ rest)
unfolding escape
csv_loop-escape s [] d rest q n h = step_close s d rest q n
csv_loop-escape s (c ∷ v) d rest q n (hc, hv) = elim (Bool-cases (c == quote)) [
  | inl y ↦
      rw y (step_double s (escape v ++ quote ∷ d ∷ rest) q ∙ csv_loop-escape s v d rest q n hv)
  | inr y ↦ rw y (
      step_in s c (escape v ++ quote ∷ d ∷ rest) q hc (λ e. ground arith)
      ∙ csv_loop-escape s v d rest q n hv)
]

csv_loop-plain :
    (h n : ℕ) (st any : Bool) (v rest : Bytes)
    → All IsPlain v
    → (st' : Bool) × (csv_loop (mk h n false false st any) (v ++ rest)
        ≡ csv_loop (mk h n false false st' any) rest)
csv_loop-plain h n st any [] rest p = (st, refl)
csv_loop-plain h n st any (c ∷ v) rest ((cr, q, co, lf), p) =
    let (st', e) = csv_loop-plain h n false any v rest p in
    (
      st',
      step_out (mk h n false false st any) (mk h n false false false any) c (v ++ rest) refl cr
            (unfold outside in ground arith)
          ∙ e,
    )

-- A cell leaves the counts alone; only the two flags depend on its form.
csv_loop-render_cell :
    (h n : ℕ) (any : Bool) (c : Cell) (x : ℕ) (rest : Bytes)
    → IsCell c
    → x ≢ quote
    → (a : Bool) × (st : Bool) × (csv_loop (mk h n false false true any) (render_cell c ++ x ∷ rest)
        ≡ csv_loop (mk h n false a st any) (x ∷ rest))
unfolding render_cell
csv_loop-render_cell h n any (in_quotes v) x rest p q = (
  true,
  false,
  step_out (mk h n false false true any) (mk h n true false false any) quote _ refl
        (λ e. absurd (ground arith)) (unfold outside in refl)
      ∙ rw append_assoc (csv_loop-escape (mk h n true false false any) v x rest refl q p),
)
csv_loop-render_cell h n any (as_is v) x rest p q =
    let (st, e) = csv_loop-plain h n true any v (x ∷ rest) p in (false, st, e)

cell-comma :
    (h n : ℕ) (any : Bool) (c : Cell) (rest : Bytes)
    → IsCell c
    → csv_loop (mk h n false false true any) (render_cell c ++ comma ∷ rest)
      ≡ csv_loop (mk h (n + 1) false false true any) rest
cell-comma h n any c rest p =
    let (a, st, e) = csv_loop-render_cell h n any c comma rest p (λ e. absurd (ground arith)) in
    e
    ∙ step_out (mk h n false a st any) (mk h (n + 1) false false true any) comma rest refl
        (λ e. absurd (ground arith)) (unfold outside in ground arith)

cell-line_feed :
    (h n m : ℕ) (any : Bool) (c : Cell) (rest : Bytes)
    → IsCell c
    → ((h ≡ 0) × (m ≡ n + 1)) ⊎ ((h ≡ m) × (h ≡ n + 1))
    → csv_loop (mk h n false false true any) (render_cell c ++ line_feed ∷ rest)
      ≡ csv_loop (mk m 0 false false true true) rest
cell-line_feed h n m any c rest p fits =
    let (a, st, e) = csv_loop-render_cell h n any c line_feed rest p (λ e. absurd (ground arith)) in
    e
    ∙ step_out (mk h n false a st any) (mk m 0 false false true true) line_feed rest refl
        (λ e. absurd (ground arith)) (unfold outside in ground arith)

csv_loop_refuses :
    (s : CsvState) (c : ℕ) (rest : Bytes)
    → s.quoted ≡ false
    → outside s c ≡ none
    → csv_loop s (c ∷ rest) ≡ none
unfolding csv_loop
csv_loop_refuses s c [] q e = ground arith
csv_loop_refuses s c (d ∷ rest) q e = ground arith

cell_refused :
    (h n : ℕ) (any : Bool) (c : Cell) (rest : Bytes)
    → IsCell c
    → h ≢ 0
    → h ≢ n + 1
    → csv_loop (mk h n false false true any) (render_cell c ++ line_feed ∷ rest) ≡ none
cell_refused h n any c rest p nz ne =
    let (a, st, e) = csv_loop-render_cell h n any c line_feed rest p (λ e. absurd (ground arith)) in
    e
    ∙ csv_loop_refuses (mk h n false a st any) line_feed rest refl (unfold outside in ground arith)

-- A row of `k + 1` cells, behind `n` cells that were read.
row_accepted :
    (h n m : ℕ) (any : Bool) (c : Cell) (cs : List Cell) (rest : Bytes)
    → IsCell c
    → All IsCell cs
    → ((h ≡ 0) × (m ≡ n + suc (length cs))) ⊎ ((h ≡ m) × (h ≡ n + suc (length cs)))
    → csv_loop (mk h n false false true any) (render_row c cs ++ rest)
      ≡ csv_loop (mk m 0 false false true true) rest
unfolding render_row
row_accepted h n m any c [] rest p ps fits =
    rw append_assoc (cell-line_feed h n m any c rest p (ground arith))
row_accepted h n m any c (d ∷ ds) rest p (q, qs) fits = rw append_assoc (
    cell-comma h n any c (render_row d ds ++ rest) p
    ∙ row_accepted h (n + 1) m any d ds rest q qs (ground arith))

row_refused :
    (h n : ℕ) (any : Bool) (c : Cell) (cs : List Cell) (rest : Bytes)
    → IsCell c
    → All IsCell cs
    → h ≢ 0
    → h ≢ n + suc (length cs)
    → csv_loop (mk h n false false true any) (render_row c cs ++ rest) ≡ none
unfolding render_row
row_refused h n any c [] rest p ps nz ne =
    rw append_assoc (cell_refused h n any c rest p nz (λ e. ne (omega arith)))
row_refused h n any c (d ∷ ds) rest p (q, qs) nz ne = rw append_assoc (
    cell-comma h n any c (render_row d ds ++ rest) p
    ∙ row_refused h (n + 1) any d ds rest q qs nz (λ e. ne (omega arith)))

rows_loop :
    (h : ℕ) (rows : List Row)
    → h ≢ 0
    → IsTable rows
    → csv_loop (mk h 0 false false true true) (render rows)
      ≡ (if same_width h rows then some (mk h 0 false false true true) else none)
unfolding render
rows_loop h [] nz t = unfold csv_loop in refl
rows_loop h ((c, cs) ∷ rows) nz ((p, ps), t) = elim (Bool-cases (h == suc (length cs))) [
  | inl y ↦
      rw y (row_accepted h 0 h true c cs (render rows) p ps (ground arith) ∙ rows_loop h rows nz t)
  | inr y ↦ rw y (row_refused h 0 true c cs (render rows) p ps nz (λ e. ground arith))
]

ends_line-append : (xs ys : Bytes) → ends_line ys ≡ true → ends_line (xs ++ ys) ≡ true
ends_line-append [] ys e = e
ends_line-append (x ∷ []) [] e = cc
ends_line-append (x ∷ []) (y ∷ ys) e = e
ends_line-append (x ∷ z ∷ xs) ys e = ends_line-append (z ∷ xs) ys e

ends_line-render_row : (c : Cell) (cs : List Cell) → ends_line (render_row c cs) ≡ true
unfolding render_row
ends_line-render_row c [] = ends_line-append (render_cell c) (line_feed ∷ []) refl
ends_line-render_row c (d ∷ ds) =
    ends_line-append (render_cell c) (comma ∷ render_row d ds)
      (ends_line-append (comma ∷ []) (render_row d ds) (ends_line-render_row d ds))

ends_line-render : (row : Row) (rows : List Row) → ends_line (render (row ∷ rows)) ≡ true
unfolding render
ends_line-render (c, cs) [] = rw append-nil (ends_line-render_row c cs)
ends_line-render (c, cs) (row ∷ rows) =
    ends_line-append (render_row c cs) (render (row ∷ rows)) (ends_line-render row rows)

verdict :
    (source : Bytes) (s : CsvState)
    → csv_loop start source ≡ some s
    → ends_line source ≡ true
    → valid_csv_source source ≡ accepts s true
unfolding valid_csv_source
verdict source s e l = rw (e, valid_csv_source) (ap (accepts s) l)

verdict_none : (source : Bytes) → csv_loop start source ≡ none → valid_csv_source source ≡ false
unfolding valid_csv_source
verdict_none source e = rw (e, valid_csv_source)

head_rows :
    (c : Cell) (cs : List Cell) (rows : List Row)
    → IsTable ((c, cs) ∷ rows)
    → csv_loop start (render ((c, cs) ∷ rows)) ≡ (
        if same_width (suc (length cs)) rows
        then some (mk (suc (length cs)) 0 false false true true)
        else none)
unfolding render
head_rows c cs rows ((p, ps), t) =
    row_accepted 0 0 (suc (length cs)) false c cs (render rows) p ps (ground arith)
    ∙ rows_loop (suc (length cs)) rows (λ e. cc) t

-- The rendering of a heading row and data rows, whose cells hold no carriage return and, where they
-- are not quoted, no separator or quote, is accepted exactly if all rows have as many cells as the
-- heading.
pub valid_csv_source-render :
    (heading : Row) (rows : List Row)
    → IsTable (heading ∷ rows)
    → valid_csv_source (render (heading ∷ rows)) ≡ same_width (width heading) rows
valid_csv_source-render (c, cs) rows t = elim (Bool-cases (same_width (suc (length cs)) rows)) [
  | inl y ↦
      verdict (render ((c, cs) ∷ rows)) (mk (suc (length cs)) 0 false false true true)
        (head_rows c cs rows t ∙ rw y refl) (ends_line-render (c, cs) rows)
      ∙ (unfold accepts in sym y)
  | inr y ↦ verdict_none (render ((c, cs) ∷ rows)) (head_rows c cs rows t ∙ rw y refl) ∙ sym y
]
