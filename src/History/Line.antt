-- ===== src/History/Line.antt =====
-- The first two loops of `validate_graph` in src/format/revision_graph.cpp: the canonical line, and
-- the imported records beside it.
use scpefe.Base.{
  Bool, Bytes, List, Option, Outcome, [], bytes_eq, false, get_elem?, if◌then◌else◌, ltb, none, not,
  ok, require_or, some, true, ℕ, ◌&&◌, ◌++◌, ◌>>◌, ◌||◌, ◌∷◌,
}
use scpefe.Cbor.Limits.{RevisionError, malformed_cbor}
use scpefe.Cbor.Reader.{head}
use scpefe.Graph.Content.{find_index}
use scpefe.Graph.Lineage.{find_record}
use scpefe.Graph.Parsing.{has, is_number, no_sources}
use scpefe.Graph.Records.{RevisionId, RevisionRecord}

abbrev pub sources_of : RevisionRecord → List RevisionId
sources_of r = elim r.fields.merge_sources [ none ↦ [] | some ids ↦ ids ]

abbrev pub is_kind : RevisionRecord → ℕ → Bool
is_kind r k = is_number r.fields.kind k

-- `seen` is the list of the records before, by whose ids the map of the source is built.
abbrev pub known : List RevisionRecord → Option RevisionId → Bool
known seen none = true
known seen (some id) = has (find_index id seen)

unfoldable pub all_known : List RevisionRecord → List RevisionId → Bool
all_known seen [] = true
all_known seen (id ∷ ids) = has (find_index id seen) && all_known seen ids

-- The comparison of two optional ids that are there; the source tests that before.
abbrev pub same_id : Option RevisionId → Option RevisionId → Bool
same_id (some a) (some b) = bytes_eq a b
same_id _ _ = false

abbrev pub is_resolved_by : RevisionRecord → RevisionId → Bool
is_resolved_by r id = same_id r.resolved_by (some id)

abbrev imported : RevisionId → Option RevisionRecord → Bool
imported id none = false
imported id (some r) = r.foreign && is_resolved_by r id

unfoldable pub imports : List RevisionRecord → RevisionId → List RevisionId → Bool
imports seen id [] = true
imports seen id (source ∷ sources) =
    imported id (find_record source seen) && imports seen id sources

abbrev content_hash_of : Option RevisionRecord → Option Bytes
content_hash_of none = none
content_hash_of (some r) = r.fields.content_hash

abbrev record_at : List RevisionRecord → Option RevisionId → Option RevisionRecord
record_at seen none = none
record_at seen (some id) = find_record id seen

-- `previous` and `content`; the count of canonical records is 0 exactly while `previous` is empty.
pub record Line : Type 0 where
  pub previous : Option RevisionId
  pub content : Option RevisionId

abbrev pub no_line : Line
no_line = record { previous = none; content = none }

-- The tests of a canonical record, which is the last one if `last`.
unfoldable pub canonical_fits : List RevisionRecord → Line → Bool → RevisionRecord → Bool
unfolding imports
canonical_fits seen line last r =
    (if has line.previous
      then same_id r.fields.previous line.previous && not (is_kind r 0)
      else is_kind r 0 && not (has r.fields.previous) && not (has r.fields.content_parent))
    && (if is_kind r 1
        then same_id r.fields.content_parent line.content && imports seen r.id (sources_of r)
        else no_sources r.fields.merge_sources)
    && (not (is_kind r 2)
        || (has line.content
            && same_id r.fields.content_hash (content_hash_of (record_at seen line.content))))
    && (not r.provisional || (last && is_kind r 1))

unfoldable pub line_fits : List RevisionRecord → Line → Bool → RevisionRecord → Bool
unfolding canonical_fits all_known
line_fits seen line last r =
    known seen r.fields.previous
    && known seen r.fields.content_parent
    && all_known seen (sources_of r)
    && not (has (find_index r.id seen))
    && (if r.foreign
        then has r.resolved_by && not (is_kind r 0)
        else canonical_fits seen line last r)

abbrev pub advance : Line → RevisionRecord → Line
advance line r =
    if r.foreign
    then line
    else record { previous = some r.id; content = if is_kind r 2 then line.content else some r.id }

abbrev pub is_last : List RevisionRecord → Bool
is_last [] = true
is_last (r ∷ rs) = false

unfoldable pub check_line :
    List RevisionRecord → Line → List RevisionRecord → Outcome RevisionError Line
unfolding line_fits
check_line seen line [] = ok line
check_line seen line (r ∷ rs) = do
  require_or malformed_cbor (line_fits seen line (is_last rs) r)
  check_line (seen ++ (r ∷ [])) (advance line r) rs

-- The heads of the graph are the ends of the line.
abbrev pub ends_at : Line → RevisionId → RevisionId → Bool
ends_at line head content_head =
    same_id line.previous (some head) && same_id line.content (some content_head)

abbrev pub index_of : List RevisionRecord → Option RevisionId → Option ℕ
index_of records none = none
index_of records (some id) = find_index id records

abbrev is_merge : Option RevisionRecord → Bool
is_merge none = false
is_merge (some r) = not r.foreign && is_kind r 1 && not (no_sources r.fields.merge_sources)

abbrev before : Option ℕ → Option ℕ → Bool
before (some i) (some j) = ltb i j
before _ _ = false

abbrev at_index : List RevisionRecord → Option ℕ → Option RevisionRecord
at_index records none = none
at_index records (some i) = get_elem? records i

-- A foreign record is resolved by a later merge, and stands on records of the graph.
unfoldable pub foreign_fits : List RevisionRecord → RevisionRecord → Bool
foreign_fits records r =
    let merge = index_of records r.resolved_by in
    not r.foreign
    || (before (find_index r.id records) merge
        && is_merge (at_index records merge)
        && has r.fields.previous
        && known records r.fields.previous
        && (not (is_kind r 1)
            || (has r.fields.content_parent && known records r.fields.content_parent)))

unfoldable pub all_foreign_fit : List RevisionRecord → List RevisionRecord → Bool
unfolding foreign_fits
all_foreign_fit records [] = true
all_foreign_fit records (r ∷ rs) = foreign_fits records r && all_foreign_fit records rs
