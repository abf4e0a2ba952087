-- ===== src/Csv.antt =====
-- src/format/csv_source.hpp: the test of comma-separated source text.
pub mod Tables
use scpefe.Base.{
  Bool, Bytes, Option, [], false, if◌then◌else◌, none, some, true, ℕ, ◌&&◌, ◌+◌, ◌==◌, ◌||◌, ◌∷◌,
}

pub record CsvState : Type 0 where
  pub headings : ℕ
  pub cells : ℕ
  pub quoted : Bool
  pub after_quote : Bool
  pub at_start : Bool
  pub any_row : Bool

abbrev pub quote : ℕ
quote = 0x22

abbrev pub comma : ℕ
comma = 0x2c

abbrev pub line_feed : ℕ
line_feed = 0x0a

abbrev pub carriage_return : ℕ
carriage_return = 0x0d

-- A separator ends a cell, a line feed ends a row, which must have as many cells as the first.
abbrev pub end_cell : CsvState → CsvState
end_cell s = record s { cells = s.cells + 1; at_start = true; after_quote = false }

pub end_row : CsvState → Option CsvState
end_row s =
    let done = record s {
      headings = if s.headings == 0 then s.cells + 1 else s.headings;
      cells = 0;
      at_start = true;
      after_quote = false;
      any_row = true;
    } in
    if s.headings == 0 || s.headings == s.cells + 1 then some done else none

-- A character outside quotes; `none` is `return false`.
pub outside : CsvState → ℕ → Option CsvState
unfolding end_row
outside s c =
    if s.after_quote
    then (if c == comma then some (end_cell s) else if c == line_feed then end_row s else none)
    else if c == quote
    then (if s.at_start then some (record s { quoted = true; at_start = false }) else none)
    else if c == comma
    then some (end_cell s)
    else if c == line_feed
    then end_row s
    else some (record s { at_start = false })

abbrev pub close_quote : CsvState → CsvState
close_quote s = record s { quoted = false; after_quote = true }

-- The loop over the source. Inside quotes a doubled quote is one character of the cell.
pub csv_loop : CsvState → Bytes → Option CsvState
unfolding outside
csv_loop s [] = some s
csv_loop s (c ∷ []) =
    if c == carriage_return
    then none
    else if s.quoted
    then some (if c == quote then close_quote s else s)
    else outside s c
csv_loop s (c ∷ d ∷ rest) =
    let doubled = csv_loop s rest in
    let inside = csv_loop (if c == quote then close_quote s else s) (d ∷ rest) in
    let out : Option CsvState = elim (outside s c) [
      | none ↦ none
      | some t ↦ csv_loop t (d ∷ rest)
    ] in
    if c == carriage_return
    then none
    else if s.quoted
    then (if c == quote && d == quote then doubled else inside)
    else out

abbrev pub start : CsvState
start = record {
  headings = 0;
  cells = 0;
  quoted = false;
  after_quote = false;
  at_start = true;
  any_row = false;
}

abbrev pub ends_line : Bytes → Bool
ends_line [] = false
ends_line (c ∷ []) = c == line_feed
ends_line (c ∷ d ∷ rest) = ends_line (d ∷ rest)

-- What is tested behind the loop: an unfinished last row counts as a row.
pub accepts : CsvState → Bool → Bool
accepts s ended =
    if s.quoted
    then false
    else if ended
    then s.any_row
    else (s.headings == 0 || s.headings == s.cells + 1)

unfoldable pub valid_csv_source : Bytes → Bool
unfolding csv_loop accepts
valid_csv_source source = elim (csv_loop start source) [
  | none ↦ false
  | some s ↦ accepts s (ends_line source)
]
