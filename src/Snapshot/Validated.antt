-- ===== src/Snapshot/Validated.antt =====
-- What `validate_data` of src/format/snapshot_revision.cpp has tested where it returns.
use mathlib.Core.Bool.{xor}
use scpefe.Base.{
  All, Bool, Bytes, List, Outcome, [], arith, err, false, fault, first-ok, is_empty, leb, length,
  not, ok, refl, require_or, require_or-ok, true, ◌&&◌, ◌++◌, ◌<◌, ◌==◌, ◌>>=◌, ◌>>◌, ◌^◌, ◌||◌,
  ◌∷◌, ◌≡◌, ◌≤◌,
}
use scpefe.Cbor.Limits.{RevisionError, default_limits, invalid_argument, limit_exceeded}
use scpefe.Snapshot.Ancestors.{
  check_nodes, find_node, node_known, validate_ancestor_graph, visit_all, zeros,
}
use scpefe.Snapshot.Data.{Node, SnapshotData, parent_count, whole_ids}
use scpefe.Snapshot.Parts.{AreIds, AreNodes}
use scpefe.Snapshot.Validation.{check_base, event_fits, sizes_fit, texts_fit, validate_with}
use scpefe.Snapshot.Wholes.{IsReadable}

pub All-both {ℓ κ₁ κ₂} :
    {A : Type ℓ} (P : A → Type κ₁) (Q : A → Type κ₂) (xs : List A)
    → All P xs
    → All Q xs
    → All (λ x. P x × Q x) xs
All-both P Q [] h k = tt
All-both P Q (x ∷ xs) h k = ((h.0, k.0), All-both P Q xs h.1 k.1)

same_of : (a b : Bool) → not (xor a b) ≡ true → a ≡ b
unfolding xor
same_of true true h = refl
same_of true false h = cc
same_of false true h = cc
same_of false false h = refl

-- A base stays within the input limit.
base-fits :
    (decode_base : Bytes → Outcome RevisionError SnapshotData) (base : Bytes)
    → check_base decode_base default_limits base ≡ ok tt
    → length base ≤ default_limits.max_input_bytes
unfolding check_base
base-fits decode_base [] h = omega arith
base-fits decode_base (x ∷ xs) h = ground (
  arith,
  (require_or-ok limit_exceeded (leb (length (x ∷ xs)) default_limits.max_input_bytes)
      (decode_base (x ∷ xs) >>= λ base. require_or invalid_argument base.manually_sealed) tt h).0,
)

-- The nodes' parents, where the tests of the nodes passed.
check_nodes-parents :
    (seen nodes : List Node)
    → check_nodes default_limits seen nodes ≡ ok tt
    → All (λ node. AreIds node.parent_revision_ids) nodes
unfolding check_nodes
check_nodes-parents seen [] h = tt
check_nodes-parents seen (node ∷ nodes) h =
    let count = parent_count node.parent_revision_ids in
    let rest = check_nodes default_limits (seen ++ (node ∷ [])) nodes in
    let is_fresh = not (node_known (find_node node.revision_id seen)) in
    let is_small =
      leb count default_limits.max_parent_count
      && leb count default_limits.max_collection_entries in
    let whole =
      require_or-ok invalid_argument (whole_ids node.parent_revision_ids)
        (require_or limit_exceeded is_small >> (require_or invalid_argument is_fresh >> rest)) tt
        h in
    let few =
      require_or-ok limit_exceeded is_small (require_or invalid_argument is_fresh >> rest) tt
        whole.1 in
    let fresh = require_or-ok invalid_argument is_fresh rest tt few.1 in
    ((ground (arith, whole.0), ground (arith, few.0)), check_nodes-parents _ nodes fresh.1)

-- What a valid graph is.
graph-AreNodes :
    (graph : List Node)
    → All (λ node. 32 ≡ length node.revision_id) graph
    → validate_ancestor_graph graph default_limits ≡ ok tt
    → AreNodes graph × (length graph ≤ default_limits.max_collection_entries)
unfolding validate_ancestor_graph
graph-AreNodes graph sizes h =
    let is_small =
      leb (length graph) default_limits.max_collection_entries
      && (length graph == 0 || leb 4 default_limits.max_nesting_depth) in
    let visits : Outcome RevisionError (Unit {0}) =
      elim (visit_all graph 0 (length graph) (zeros (length graph))) [
        | ok state ↦ ok tt
        | err e ↦ err e
        | fault ↦ fault
      ] in
    let few =
      require_or-ok limit_exceeded is_small (check_nodes default_limits [] graph >> visits) tt h in
    let nodes = first-ok (check_nodes default_limits [] graph) visits tt few.1 in
    (All-both _ _ graph sizes (check_nodes-parents [] graph nodes.0), ground (arith, few.0))

pub validate_with-IsReadable :
    (decode_base : Bytes → Outcome RevisionError SnapshotData) (d : SnapshotData)
    → d.timestamp_ms < 2 ^ 64
    → All (λ node. 32 ≡ length node.revision_id) d.ancestor_graph
    → validate_with decode_base d default_limits ≡ ok tt
    → IsReadable d
unfolding validate_with sizes_fit texts_fit event_fits
validate_with-IsReadable decode_base d time sizes h =
    let size_test =
      whole_ids d.parent_revision_ids && length d.slot_id == 16 && length d.content_hash == 32 in
    let base_test = not (xor d.manually_sealed (is_empty d.provisional_base_revision)) in
    let last = check_base decode_base default_limits d.provisional_base_revision in
    let last_2 = require_or invalid_argument base_test >> last in
    let last_3 = require_or invalid_argument (event_fits d) >> last_2 in
    let last_4 = validate_ancestor_graph d.ancestor_graph default_limits >> last_3 in
    let last_5 = require_or invalid_argument (texts_fit d) >> last_4 in
    let last_6 = require_or limit_exceeded (sizes_fit d default_limits) >> last_5 in
    let own = require_or-ok invalid_argument size_test last_6 tt h in
    let fits = require_or-ok limit_exceeded (sizes_fit d default_limits) last_5 tt own.1 in
    let texts = require_or-ok invalid_argument (texts_fit d) last_4 tt fits.1 in
    let graph =
      first-ok (validate_ancestor_graph d.ancestor_graph default_limits) last_3 tt texts.1 in
    let nodes = graph-AreNodes d.ancestor_graph sizes graph.0 in
    let event = require_or-ok invalid_argument (event_fits d) last_2 tt graph.1 in
    let base = require_or-ok invalid_argument base_test last tt event.1 in
    record {
      required = record {
        parents = (ground (arith, own.0), ground (arith, fits.0));
        time = time;
        slot = ground (arith, own.0);
        slot_name = (ground (arith, fits.0), ground (arith, texts.0));
        slot_email = (ground (arith, fits.0), ground (arith, texts.0));
        client_name = (ground (arith, fits.0), ground (arith, texts.0));
        client_email = (ground (arith, fits.0), ground (arith, texts.0));
        device = (ground (arith, fits.0), ground (arith, texts.0));
        hash = ground (arith, own.0);
        content = (ground (arith, fits.0), ground (arith, texts.0));
      };
      nodes = nodes.0;
      few_nodes = nodes.1;
      graph = graph.0;
      base = same_of d.manually_sealed (is_empty d.provisional_base_revision) base.0;
      base_fits = base-fits decode_base d.provisional_base_revision base.1;
      type = (ground (arith, fits.0), ground (arith, texts.0));
      detail = (ground (arith, fits.0), ground (arith, texts.0));
      event = same_of (is_empty d.event_type) (is_empty d.event_detail) (ground (arith, event.0));
    }
