-- ===== src/Graph/Closure.antt =====
-- A property of calls that the combinators of src/format/cbor_reader.cpp keep holds of the parsers
-- of src/format/revision_graph.cpp, which are made of these.
use scpefe.Base.{Bool, Bytes, List, [], false, if◌then◌else◌, suc, true, zero, ℕ, ◌+◌}
use scpefe.Cbor.Limits.{RevisionError, RevisionLimits}
use scpefe.Cbor.Reader.{boolean, skip_extension, text, unsigned_integer}
use scpefe.Cbor.Reading.{Reads, fail, fail_if, return, ◌>>=◌, ◌>>◌}
use scpefe.Graph.Parsing.{captured, event_field, read_fields, read_status, set}
use scpefe.Graph.Records.{EventFacts, RevisionSlot}
use scpefe.Graph.Slots.{
  key, next_key, parse_lease, parse_owner, parse_slots, read_entry, read_id, read_slot, read_slots,
  read_time,
}
use scpefe.Cbor.Reader

pub record IsClosed (P : (A : Type 0) → Reads A → Type 0) : Type 1 where
  pub returns : (A : Type 0) (a : A) → P A (return a)
  pub fails : (A : Type 0) (e : RevisionError) → P A (fail e)
  pub binds :
      (A B : Type 0) (m : Reads A) (f : A → Reads B) → P A m → ((a : A) → P B (f a)) → P B (m >>= f)
  pub checks :
      (A : Type 0) (b : Bool) (e : RevisionError) (m : Reads A) → P A m → P A (fail_if b e >> m)
  pub captures : (A : Type 0) (m : Reads A) → P A m → P (A × Bytes) (captured m)
  pub unsigneds : P ℕ unsigned_integer
  pub booleans : P Bool boolean
  pub texts : (limits : RevisionLimits) → P Bytes (Reader.text limits)
  pub strings :
      (limits : RevisionLimits) (required maximum : ℕ)
      → P Bytes (Reader.bytes limits required maximum)
  pub arrays : (limits : RevisionLimits) (depth : ℕ) → P ℕ (Reader.array limits depth)
  pub maps : (limits : RevisionLimits) (depth : ℕ) → P ℕ (Reader.map limits depth)
  pub extensions :
      (limits : RevisionLimits) (depth : ℕ) → P (Unit {0}) (skip_extension limits depth)

module _ (P : (A : Type 0) → Reads A → Type 0) (laws : IsClosed P) where
  pub set_closed : {A B : Type 0} (m : Reads A) (f : A → B) → P _ m → P _ (set m f)
  set_closed m f h = laws.binds _ _ m _ h (λ a. laws.returns _ (f a))

  pub if_closed : {A : Type 0} (b : Bool) (m n : Reads A) → P A m → P A n → P A (if b then m else n)
  if_closed true m n h k = h
  if_closed false m n h k = k

  pub check_closed : (b : Bool) (e : RevisionError) → P (Unit {0}) (fail_if b e)
  check_closed true e = laws.fails _ e
  check_closed false e = laws.returns _ tt

  -- A number that is tested and returned.
  pub tested_closed :
      (b : ℕ → Bool) (e : RevisionError)
      → P _ (unsigned_integer >>= λ v. fail_if (b v) e >> return v)
  tested_closed b e =
      laws.binds _ _ unsigned_integer _ laws.unsigneds
        λ v. laws.checks _ (b v) e _ (laws.returns _ v)

  pub next_key_closed : (previous : ℕ) → P _ (next_key previous)
  unfolding next_key
  next_key_closed previous = tested_closed _ _

  pub key_closed : (previous expected : ℕ) → P _ (key previous expected)
  unfolding key
  key_closed previous expected = tested_closed _ _

  pub read_fields_closed :
      {A : Type 0} (value : ℕ → A → Reads A) (n previous : ℕ) (x : A)
      → ((k : ℕ) (y : A) → P _ (value k y))
      → P _ (read_fields value n previous x)
  unfolding read_fields
  read_fields_closed value zero previous x h = laws.returns _ x
  read_fields_closed value (suc n) previous x h =
      laws.binds _ _ (next_key previous) _ (next_key_closed previous)
        λ k. laws.binds _ _ (value k x) _ (h k x) λ y. read_fields_closed value n k y h

  pub read_id_closed : (limits : RevisionLimits) → P _ (read_id limits)
  unfolding read_id
  read_id_closed limits = laws.strings limits 32 0

  pub read_slot_closed : (limits : RevisionLimits) → P _ (read_slot limits)
  unfolding read_slot
  read_slot_closed limits = laws.strings limits 16 0

  pub read_entry_closed : (limits : RevisionLimits) → P _ (read_entry limits)
  unfolding read_entry
  read_entry_closed limits = laws.binds _ _ (Reader.map limits 3) _ (laws.maps limits 3) λ n.
      laws.checks _ _ _ _ (
        laws.binds _ _ (key 0 1) _ (key_closed 0 1) λ k1.
          laws.binds _ _ (read_slot limits) _ (read_slot_closed limits) λ slot.
            laws.binds _ _ (key k1 2) _ (key_closed k1 2) λ k2.
              laws.binds _ _ unsigned_integer _ laws.unsigneds λ rights.
                laws.binds _ _ (key k2 3) _ (key_closed k2 3) λ k3.
                  laws.binds _ _ boolean _ laws.booleans λ claim.
                    laws.binds _ _ (key k3 4) _ (key_closed k3 4) λ k4.
                      laws.binds _ _ unsigned_integer _ laws.unsigneds λ kind.
                        laws.binds _ _ (key k4 5) _ (key_closed k4 5) λ k5.
                          laws.binds _ _ (read_slot limits) _ (read_slot_closed limits)
                            λ management. laws.binds _ _ (key k5 6) _ (key_closed k5 6) λ k6.
                              laws.binds _ _ (Reader.text limits) _ (laws.texts limits) λ called.
                                laws.binds _ _ (key k6 7) _ (key_closed k6 7) λ k7.
                                  laws.binds _ _ (Reader.text limits) _ (laws.texts limits)
                                    λ mail. laws.returns _ _)

  pub read_slots_closed :
      (limits : RevisionLimits) (left i count : ℕ) (recovery : Bool) (seen : List RevisionSlot)
      → P _ (read_slots limits left i count recovery seen)
  unfolding read_slots
  read_slots_closed limits zero i count recovery seen = laws.returns _ seen
  read_slots_closed limits (suc left) i count recovery seen =
      laws.binds _ _ (read_entry limits) _ (read_entry_closed limits)
        λ slot. laws.checks _ _ _ _ (read_slots_closed limits left (i + 1) count _ _)

  pub parse_slots_closed : (limits : RevisionLimits) → P _ (parse_slots limits)
  unfolding parse_slots
  parse_slots_closed limits =
      laws.binds _ _ (Reader.array limits 2) _ (laws.arrays limits 2)
        λ count. laws.checks _ _ _ _ (read_slots_closed limits count 0 count false [])

  pub read_status_closed : P _ read_status
  unfolding read_status
  read_status_closed = tested_closed _ _

  pub event_field_closed :
      (limits : RevisionLimits) (k : ℕ) (x : EventFacts) → P _ (event_field limits k x)
  unfolding event_field
  event_field_closed limits k x = if_closed _ _ _ (set_closed _ _ (read_slot_closed limits)) (
      if_closed _ _ _ (set_closed _ _ (read_id_closed limits)) (
        if_closed _ _ _ (set_closed _ _ laws.unsigneds) (
          if_closed _ _ _ (set_closed _ _ read_status_closed)
            (if_closed _ _ _ (set_closed _ _ (laws.texts limits)) (laws.fails _ _)))))

  pub read_time_closed : P _ read_time
  unfolding read_time
  read_time_closed = tested_closed _ _

  pub parse_owner_closed : (limits : RevisionLimits) → P _ (parse_owner limits)
  unfolding parse_owner
  parse_owner_closed limits = laws.binds _ _ (Reader.map limits 2) _ (laws.maps limits 2) λ n.
      laws.checks _ _ _ _ (
        laws.binds _ _ (key 0 1) _ (key_closed 0 1) λ k1.
          laws.binds _ _ (read_slot limits) _ (read_slot_closed limits) λ slot.
            laws.binds _ _ (key k1 2) _ (key_closed k1 2) λ k2.
              laws.binds _ _ (Reader.text limits) _ (laws.texts limits) λ called.
                laws.binds _ _ (key k2 3) _ (key_closed k2 3) λ k3.
                  laws.binds _ _ (Reader.text limits) _ (laws.texts limits)
                    λ mail. laws.checks _ _ _ _ (laws.returns _ _))

  pub parse_lease_closed : (limits : RevisionLimits) → P _ (parse_lease limits)
  unfolding parse_lease
  parse_lease_closed limits =
      let text = laws.texts limits in
      laws.binds _ _ (Reader.map limits 2) _ (laws.maps limits 2) λ n. laws.checks _ _ _ _ (
        laws.binds _ _ (key 0 1) _ (key_closed 0 1) λ k1.
          laws.binds _ _ boolean _ laws.booleans λ held.
            laws.binds _ _ (key k1 2) _ (key_closed k1 2) λ k2.
              laws.binds _ _ (read_slot limits) _ (read_slot_closed limits) λ session.
                laws.binds _ _ (key k2 3) _ (key_closed k2 3) λ k3.
                  laws.binds _ _ unsigned_integer _ laws.unsigneds λ counter.
                    laws.binds _ _ (key k3 4) _ (key_closed k3 4) λ k4.
                      laws.binds _ _ read_time _ read_time_closed λ utc.
                        laws.binds _ _ (key k4 5) _ (key_closed k4 5) λ k5.
                          laws.binds _ _ unsigned_integer _ laws.unsigneds λ duration.
                            laws.binds _ _ (key k5 6) _ (key_closed k5 6) λ k6.
                              laws.binds _ _ (Reader.text limits) _ text λ called.
                                laws.binds _ _ (key k6 7) _ (key_closed k6 7) λ k7.
                                  laws.binds _ _ (Reader.text limits) _ text λ mail.
                                    laws.binds _ _ (key k7 8) _ (key_closed k7 8) λ k8.
                                      laws.binds _ _ (Reader.text limits) _ text
                                        λ device. laws.checks _ _ _ _ (laws.returns _ _))
