-- ===== src/Snapshot/Fuel.antt =====
-- `SnapshotRevision::decode` of src/format/snapshot_revision.cpp, which calls itself on a base.
use mathlib.Core.Bool.{xor}
use mathlib.Core.Path.{subst}
use scpefe.Base.{
  Bytes, Outcome, [], ap, arith, err, false, fault, is_empty, leb, length, not, ok, refl,
  require_or, suc, sym, zero, ℕ, ◌&&◌, ◌+◌, ◌-◌, ◌==◌, ◌>>=◌, ◌>>◌, ◌∙◌, ◌∷◌, ◌≡◌, ◌≤◌,
}
use scpefe.Cbor.Limits.{RevisionError, RevisionLimits, invalid_argument, limit_exceeded}
use scpefe.Cbor.Reading.{Reader, at}
use scpefe.Snapshot.Ancestors.{validate_ancestor_graph}
use scpefe.Snapshot.Data.{SnapshotData, whole_ids}
use scpefe.Snapshot.Decoding.{read_snapshot}
use scpefe.Snapshot.Validation.{
  accepted, check_base, decode_at, event_fits, sizes_fit, texts_fit, validate_with,
}

module _ {E : Type 0} {A : Type 0} where
  -- What a call that returned is followed by may be replaced by more.
  then-grows :
      (first : Outcome E (Unit {0})) (m n : Outcome E A) (a : A)
      → (m ≡ ok a → n ≡ ok a)
      → (first >> m) ≡ ok a
      → (first >> n) ≡ ok a
  then-grows (ok u) m n a agrees h = agrees h
  then-grows (err e) m n a agrees h = cc
  then-grows fault m n a agrees h = cc

  call-grows :
      {B : Type 0} (m n : Outcome E B) (next : B → Outcome E A) (a : A)
      → ((b : B) → m ≡ ok b → n ≡ ok b)
      → (m >>= next) ≡ ok a
      → (n >>= next) ≡ ok a
  call-grows (ok b) n next a agrees h = rw (agrees b refl) h
  call-grows (err e) n next a agrees h = cc
  call-grows fault n next a agrees h = cc

module _ (f g : Bytes → Outcome RevisionError SnapshotData) (l : RevisionLimits) where
  check_base-grows :
      (base : Bytes)
      → (is_empty base ≡ false → (d : SnapshotData) → f base ≡ ok d → g base ≡ ok d)
      → check_base f l base ≡ ok tt
      → check_base g l base ≡ ok tt
  unfolding check_base
  check_base-grows [] agrees h = h
  check_base-grows (x ∷ xs) agrees h =
      let sealed : SnapshotData → Outcome RevisionError (Unit {0}) =
        λ base. require_or invalid_argument base.manually_sealed in
      then-grows (require_or limit_exceeded (leb (length (x ∷ xs)) l.max_input_bytes))
        (f (x ∷ xs) >>= sealed) (g (x ∷ xs) >>= sealed) tt
        (call-grows (f (x ∷ xs)) (g (x ∷ xs)) sealed tt (agrees refl)) h

  pub validate_with-grows :
      (d : SnapshotData)
      → (is_empty d.provisional_base_revision ≡ false
          → (base : SnapshotData) → f d.provisional_base_revision ≡ ok base
          → g d.provisional_base_revision ≡ ok base)
      → validate_with f d l ≡ ok tt
      → validate_with g d l ≡ ok tt
  unfolding validate_with
  validate_with-grows d agrees =
      let Verdict : Type 0 = Outcome RevisionError (Unit {0}) in
      let size_test =
        whole_ids d.parent_revision_ids && length d.slot_id == 16 && length d.content_hash == 32 in
      let base_test = not (xor d.manually_sealed (is_empty d.provisional_base_revision)) in
      let v2 : Verdict → Verdict = λ m. require_or invalid_argument base_test >> m in
      let v3 : Verdict → Verdict = λ m. require_or invalid_argument (event_fits d) >> v2 m in
      let v4 : Verdict → Verdict = λ m. validate_ancestor_graph d.ancestor_graph l >> v3 m in
      let v5 : Verdict → Verdict = λ m. require_or invalid_argument (texts_fit d) >> v4 m in
      let v6 : Verdict → Verdict = λ m. require_or limit_exceeded (sizes_fit d l) >> v5 m in
      let m = check_base f l d.provisional_base_revision in
      let n = check_base g l d.provisional_base_revision in
      then-grows (require_or invalid_argument size_test) (v6 m) (v6 n) tt (
        then-grows (require_or limit_exceeded (sizes_fit d l)) (v5 m) (v5 n) tt (
          then-grows (require_or invalid_argument (texts_fit d)) (v4 m) (v4 n) tt (
            then-grows (validate_ancestor_graph d.ancestor_graph l) (v3 m) (v3 n) tt (
              then-grows (require_or invalid_argument (event_fits d)) (v2 m) (v2 n) tt (
                then-grows (require_or invalid_argument base_test) m n tt
                  (check_base-grows d.provisional_base_revision agrees))))))

module _ (l : RevisionLimits) where
  abbrev pub decoded :
      (Bytes → Outcome RevisionError SnapshotData)
      → Outcome RevisionError (SnapshotData × Reader)
      → Outcome RevisionError SnapshotData
  decoded f m = elim m [
    | ok (d, r) ↦ accepted d (validate_with f d l)
    | err e ↦ err e
    | fault ↦ fault
  ]

  accepted-ok :
      (d e : SnapshotData) (verdict : Outcome RevisionError (Unit {0}))
      → accepted d verdict ≡ ok e
      → verdict ≡ ok tt
  unfolding accepted
  accepted-ok d e (ok u) h = refl
  accepted-ok d e (err invalid_argument) h = cc
  accepted-ok d e (err x) h = cc
  accepted-ok d e fault h = cc

  decoded-grows :
      (f g : Bytes → Outcome RevisionError SnapshotData)
      (m : Outcome RevisionError (SnapshotData × Reader)) (e : SnapshotData)
      → ((x : Bytes) (d : SnapshotData) → f x ≡ ok d → g x ≡ ok d)
      → decoded f m ≡ ok e
      → decoded g m ≡ ok e
  decoded-grows f g (ok (d, r)) e agrees h =
      let verdict = accepted-ok d e (validate_with f d l) h in
      let grown = validate_with-grows f g l d (λ x. agrees d.provisional_base_revision) verdict in
      ap (accepted d) (grown ∙ sym verdict) ∙ h
  decoded-grows f g (err x) e agrees h = cc
  decoded-grows f g fault e agrees h = cc

  -- More fuel changes nothing.
  decode_at-suc :
      (fuel : ℕ) (x : Bytes) (d : SnapshotData)
      → decode_at fuel l x ≡ ok d
      → decode_at (suc fuel) l x ≡ ok d
  unfolding decode_at
  decode_at-suc zero x d h = cc
  decode_at-suc (suc fuel) x d h =
      decoded-grows (decode_at fuel l) (decode_at (suc fuel) l) (read_snapshot l (at x 0)) d
        (decode_at-suc fuel) h

  decode_at-add :
      (more fuel total : ℕ) (x : Bytes) (d : SnapshotData)
      → total ≡ more + fuel
      → decode_at fuel l x ≡ ok d
      → decode_at total l x ≡ ok d
  decode_at-add zero fuel total x d same h =
      let none_more : fuel ≡ total = omega arith in subst (λ n. decode_at n l x ≡ ok d) none_more h
  decode_at-add (suc more) fuel total x d same h =
      let one_more : suc (more + fuel) ≡ total = omega arith in
      subst (λ n. decode_at n l x ≡ ok d) one_more
        (decode_at-suc (more + fuel) x d (decode_at-add more fuel (more + fuel) x d refl h))

  pub decode_at-le :
      (fuel total : ℕ) (x : Bytes) (d : SnapshotData)
      → fuel ≤ total
      → decode_at fuel l x ≡ ok d
      → decode_at total l x ≡ ok d
  decode_at-le fuel total x d h = decode_at-add (total - fuel) fuel total x d (omega arith)
