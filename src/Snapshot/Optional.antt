-- ===== src/Snapshot/Optional.antt =====
-- The fields 12 to 16 of `encode` and `decode` in src/format/snapshot_revision.cpp, which `decode`
-- tells apart by a look at the next key.
use mathlib.Core.List.{append_assoc}
use mathlib.Core.Path.{subst}
use scpefe.Base.{
  Bytes, [], ap, arith, false, if◌then◌else◌, ok, refl, suc, sym, true, ℕ, ◌++◌, ◌-◌, ◌<◌, ◌==◌,
  ◌^◌, ◌∙◌, ◌≡◌,
}
use scpefe.Cbor.Encodes.{>>=-Encodes, Encodes, return-Encodes}
use scpefe.Cbor.Items.{head-ReadsBack}
use scpefe.Cbor.Reader.{peek_unsigned}
use scpefe.Cbor.Reading.{>>=-ok, Reads, at, return, ◌>>=◌}
use scpefe.Cbor.Writer.{Writes, header, put_unsigned}
use scpefe.Snapshot.Data.{SnapshotData}
use scpefe.Snapshot.Decoding.{matching_field, optional_field}
use scpefe.Snapshot.Parts.{expect-Encodes}

peeked :
    (k : ℕ) (c rest : Bytes) (p : ℕ)
    → k < 2 ^ 64
    → peek_unsigned (at ((header 0 k ++ c) ++ rest) p) ≡ ok (k, at ((header 0 k ++ c) ++ rest) p)
unfolding peek_unsigned
peeked k c rest p h =
    let read = head-ReadsBack 0 k (omega arith) h (c ++ rest) p in
    rw (append_assoc (header 0 k) c rest) (ground (arith, read))

module _ (k : ℕ) (read : SnapshotData → Reads SnapshotData) where
  -- Where the next key is `j`, it decides.
  looked_at :
      (n : ℕ) (d : SnapshotData) (j : ℕ) (c rest : Bytes) (p : ℕ)
      → j < 2 ^ 64
      → optional_field k read (suc n, d) (at ((header 0 j ++ c) ++ rest) p)
        ≡ matching_field k read (suc n, d) j (at ((header 0 j ++ c) ++ rest) p)
  unfolding optional_field
  looked_at n d j c rest p h =
      let fields_left : (suc n == 0) ≡ false = ground arith in
      let next = peek_unsigned >>= matching_field k read (suc n, d) in
      let s = at ((header 0 j ++ c) ++ rest) p in
      ap (λ b. (if b then return (suc n, d) else next) s) fields_left
      ∙ >>=-ok peek_unsigned (matching_field k read (suc n, d)) s s j (peeked j c rest p h)

  -- The field that is next is read.
  pub taken-Encodes :
      (n : ℕ) (d next : SnapshotData) (w : Writes)
      → k < 2 ^ 64
      → Encodes (read d) w next
      → Encodes (optional_field k read (suc n, d)) (λ output. w (put_unsigned k output)) (n, next)
  unfolding matching_field
  taken-Encodes n d next w h e =
      let less : suc n - 1 ≡ n = omega arith in
      let own : (k == k) ≡ true = ground arith in
      let field : Encodes (matching_field k read (suc n, d) k) (λ output. w (put_unsigned k output))
          (suc n - 1, next) =
        rw own (
          >>=-Encodes _ (expect-Encodes k h)
            (>>=-Encodes _ e (return-Encodes (suc n - 1, next)))) in
      let inner =
        subst
          (λ m.
            Encodes (matching_field k read (suc n, d) k) (λ output. w (put_unsigned k output))
              (m, next))
          less field in
      let start : w (put_unsigned k []) ≡ header 0 k ++ w [] = e.appends (header 0 k) in
      record {
        appends = inner.appends;
        reads = λ rest p.
            subst
              (λ bs.
                optional_field k read (suc n, d) (at (bs ++ rest) p)
                ≡ matching_field k read (suc n, d) k (at (bs ++ rest) p))
              (sym start) (looked_at n d k (w []) rest p h)
            ∙ inner.reads rest p;
      }

  -- Another field is next.
  pub skipped :
      (n : ℕ) (d : SnapshotData) (j : ℕ) (c rest : Bytes) (p : ℕ)
      → j < 2 ^ 64
      → (j == k) ≡ false
      → optional_field k read (suc n, d) (at ((header 0 j ++ c) ++ rest) p)
        ≡ ok ((suc n, d), at ((header 0 j ++ c) ++ rest) p)
  unfolding matching_field
  skipped n d j c rest p h other = looked_at n d j c rest p h ∙ rw other refl

  -- The same in front of the next call.
  pub skipped-Encodes :
      {A : Type 0} (f : ℕ × SnapshotData → Reads A) (n : ℕ) (d : SnapshotData) (w : Writes) (a : A)
      (j : ℕ) (c : Bytes)
      → w [] ≡ header 0 j ++ c
      → (j == k) ≡ false
      → j < 2 ^ 64
      → Encodes (f (suc n, d)) w a
      → Encodes (optional_field k read (suc n, d) >>= f) w a
  skipped-Encodes f n d w a j c start other h e =
      let passes : (rest : Bytes) (p : ℕ)
          → optional_field k read (suc n, d) (at (w [] ++ rest) p)
            ≡ ok ((suc n, d), at (w [] ++ rest) p) =
        λ rest p.
          subst
            (λ bs.
              optional_field k read (suc n, d) (at (bs ++ rest) p)
              ≡ ok ((suc n, d), at (bs ++ rest) p))
            (sym start) (skipped n d j c rest p h other) in
      record {
        appends = e.appends;
        reads = λ rest p.
            >>=-ok (optional_field k read (suc n, d)) f (at (w [] ++ rest) p) (at (w [] ++ rest) p)
              (suc n, d) (passes rest p)
            ∙ e.reads rest p;
      }

  -- Without fields that remain, nothing is looked at.
  pub none_left-Encodes :
      (d : SnapshotData) → Encodes (optional_field k read (0, d)) (λ output. output) (0, d)
  unfolding optional_field
  none_left-Encodes d = return-Encodes (0, d)
