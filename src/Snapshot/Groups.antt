-- ===== src/Snapshot/Groups.antt =====
-- The groups of optional fields that `encode` of src/format/snapshot_revision.cpp writes in front of
-- the event, and `decode` reads.
use mathlib.Core.List.{append_assoc}
use scpefe.Base.{
  Bool, Bytes, List, Outcome, [], arith, false, inl, inr, is_empty, length, ltb, ok, refl, suc,
  true, ℕ, ◌∷◌, ◌≡◌, ◌≤◌,
}
use scpefe.Cbor.Encodes.{
  >>=-Encodes, Encodes, array-Encodes, boolean-Encodes, bytes-Encodes, checked-Encodes,
  return-Encodes,
}
use scpefe.Cbor.Limits.{RevisionError, default_limits, limit_exceeded, malformed_cbor}
use scpefe.Cbor.Reading.{Reads, return, ◌>>◌}
use scpefe.Cbor.Writer.{Writes, header, put_array, put_boolean, put_bytes, put_unsigned, ◌▷◌}
use scpefe.Snapshot.Ancestors.{validate_ancestor_graph}
use scpefe.Snapshot.Data.{Node, SnapshotData}
use scpefe.Snapshot.Decoding.{as_malformed, read_ancestors, read_base, read_optional, read_sealed}
use scpefe.Snapshot.Encoding.{put_ancestors, put_nodes, put_provisional}
use scpefe.Snapshot.Optional.{taken-Encodes}
use scpefe.Snapshot.Parts.{AreNodes, read_nodes-Encodes}
use scpefe.Snapshot.Tails.{
  Appends, Later, Later-skipped, Later-weaken, number-Appends, read_event, read_provisional,
  then-Appends,
}

-- How many fields there are with those of the base, and with those of the graph.
abbrev pub provisional_count : Bytes → ℕ → ℕ
provisional_count [] n = n
provisional_count (x ∷ xs) n = suc (suc n)

abbrev pub graph_count : List Node → ℕ → ℕ
graph_count [] n = n
graph_count (node ∷ nodes) n = suc n

bytes-Appends : (v : Bytes) → Appends (put_bytes v)
bytes-Appends v output = append_assoc output (header 2 (length v)) v

boolean-Appends : (b : Bool) → Appends (put_boolean b)
boolean-Appends b output = refl

module _ (d : SnapshotData) where
  abbrev based : Bool → Bytes → SnapshotData
  based sealed base = record d { manually_sealed = sealed; provisional_base_revision = base }

  -- The base, in front of what is read behind it.
  pub provisional-Encodes :
      (sealed : Bool) (base : Bytes) (n : ℕ) (w : Writes) (a : ℕ × SnapshotData)
      → sealed ≡ is_empty base
      → length base ≤ default_limits.max_input_bytes
      → Later 14 n w
      → Encodes (read_event (n, based sealed base)) w a
      → Encodes
          (read_provisional (provisional_count base n, based true []))
          (λ output. w (put_provisional (based sealed base) output))
          a
  unfolding put_provisional read_sealed read_base
  provisional-Encodes false [] n w a same few later e = cc
  provisional-Encodes true [] n w a same few later e =
      Later-skipped 13 read_sealed _ n (based true []) w a
        (Later-weaken 13 14 n w (omega arith) later)
        (Later-skipped 14 (read_base default_limits) read_event n (based true []) w a later e)
  provisional-Encodes true (x ∷ xs) n w a same few later e = cc
  provisional-Encodes false (x ∷ xs) n w a same few later e =
      >>=-Encodes _
        (taken-Encodes 13 read_sealed (suc n) (based true []) (based false []) (put_boolean false)
          (omega arith)
          (>>=-Encodes _ (boolean-Encodes false)
            (checked-Encodes malformed_cbor refl (return-Encodes (based false [])))))
        (>>=-Encodes _
          (taken-Encodes 14 (read_base default_limits) n (based false []) (based false (x ∷ xs))
            (put_bytes (x ∷ xs)) (omega arith)
            (>>=-Encodes _
              (bytes-Encodes default_limits 0 default_limits.max_input_bytes (x ∷ xs) (omega arith)
                few (inl refl))
              (return-Encodes (based false (x ∷ xs)))))
          e)

  pub provisional-Later :
      (sealed : Bool) (base : Bytes) (n : ℕ) (w : Writes)
      → sealed ≡ is_empty base
      → Appends w
      → Later 14 n w
      → Later 12
          (provisional_count base n)
          (λ output. w (put_provisional (based sealed base) output))
  unfolding put_provisional
  provisional-Later false [] n w same k later = cc
  provisional-Later true [] n w same k later = Later-weaken 12 14 n w (omega arith) later
  provisional-Later true (x ∷ xs) n w same k later = cc
  provisional-Later false (x ∷ xs) n w same k later =
      let base = then-Appends (put_bytes (x ∷ xs)) w (bytes-Appends (x ∷ xs)) k in
      let keyed = then-Appends (put_unsigned 14) _ (number-Appends 14) base in
      let all = then-Appends (put_boolean false) _ (boolean-Appends false) keyed in
      inr (13, _, omega arith, omega arith, all (header 0 13))

validated-Encodes :
    {A : Type 0} (verdict : Outcome RevisionError (Unit {0})) (f : Reads A) (w : Writes) (a : A)
    → verdict ≡ ok tt
    → Encodes f w a
    → Encodes (as_malformed verdict >> f) w a
unfolding as_malformed
validated-Encodes verdict f w a h e = rw h e

-- The graph of the ancestors, in front of what is read behind it.
pub ancestors-Encodes :
    (d : SnapshotData) (graph : List Node) (n : ℕ) (w : Writes) (a : ℕ × SnapshotData)
    → AreNodes graph
    → length graph ≤ default_limits.max_collection_entries
    → validate_ancestor_graph graph default_limits ≡ ok tt
    → Later 12 n w
    → Encodes (read_provisional (n, record d { ancestor_graph = graph })) w a
    → Encodes
        (read_optional default_limits (graph_count graph n, record d { ancestor_graph = [] }))
        (λ output. w (put_ancestors graph output))
        a
unfolding read_optional put_ancestors read_ancestors
ancestors-Encodes d [] n w a nodes few valid later e =
    Later-skipped 12 (read_ancestors default_limits) read_provisional n
      (record d { ancestor_graph = [] }) w a later e
ancestors-Encodes d (node ∷ rest) n w a nodes few valid later e =
    let graph = node ∷ rest in
    let whole : SnapshotData = record d { ancestor_graph = graph } in
    let passes : ltb default_limits.max_collection_entries (length graph) ≡ false = ground arith in
    >>=-Encodes _
      (taken-Encodes 12 (read_ancestors default_limits) n (record d { ancestor_graph = [] }) whole
        (λ output. output ▷ put_array (length graph) ▷ put_nodes graph) (omega arith)
        (>>=-Encodes _
          (array-Encodes default_limits 2 (length graph) (omega arith) few (omega arith))
          (checked-Encodes limit_exceeded passes (
            >>=-Encodes _ (read_nodes-Encodes graph nodes) (
              validated-Encodes (validate_ancestor_graph graph default_limits) (return whole) _
                whole valid (return-Encodes whole))))))
      e
