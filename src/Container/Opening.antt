-- ===== src/Container/Opening.antt =====
-- `Container::open_document` of src/container/container.cpp, and the calls that may replace the
-- committed image. `validate` stands for the validation of the envelope.
use scpefe.Base.{
  Bool, Bytes, Outcome, [], arith, bytes_eq, err, fault, if◌then◌else◌, ok, some, take, true, ℕ,
  ◌∷◌, ◌≡◌, ◌⊎◌,
}
use scpefe.Container.Content.{submit_content}
use scpefe.Container.Install.{
  Installs, acknowledge_save, install_transition, resolve_save, transition,
}
use scpefe.Container.Session.{
  Container, ContainerCandidate, Thrown, container_failure, state_error, unsupported_format,
}
use scpefe.State.Types.{
  PublicationOutcome, StateTransition, closed, invalid_transition, is_open, verified,
}

-- The magic of the format before.
abbrev obsolete_v2_magic : Bytes
obsolete_v2_magic = 0x53 ∷ 0x43 ∷ 0x50 ∷ 0x45 ∷ 0x46 ∷ 0x45 ∷ 0 ∷ 2 ∷ []

abbrev pub Opens : Type 0
Opens = Container × Outcome Thrown (Unit {0})

-- The old image is put back where the state refuses.
abbrev opened : Bytes → Installs → Opens
opened before (c, ok r) = (c, ok tt)
opened before (c, err e) = (record c { committed_bytes = before }, err (state_error e))
opened before (c, fault) = (c, fault)

unfoldable pub open_document : (Bytes → Outcome Thrown (Unit {0})) → Container → Bytes → Opens
open_document validate c bytes =
    if bytes_eq (take 8 bytes) obsolete_v2_magic
    then (c, err (container_failure unsupported_format))
    else if is_open c.state.access
    then (c, err (state_error invalid_transition))
    else elim (validate bytes) [
      | ok u ↦
          opened c.committed_bytes (
            install_transition (record c { committed_bytes = bytes }) StateTransition.open_document)
      | err e ↦ (c, err e)
      | fault ↦ (c, fault)
    ]

-- What a host may ask of a container and its candidate.
pub data Call : Type 0 where
  opens : (Bytes → Outcome Thrown (Unit {0})) → Bytes → Call
  submits : Bytes → Call
  acknowledges : ℕ → PublicationOutcome → Call
  resolves : ℕ → Bool → Call
  attempts : StateTransition → Call

abbrev submitted : Container → Outcome Thrown Container → Container
submitted c (ok d) = d
submitted c _ = c

abbrev pub called : Container → Call → Container
called c (opens validate bytes) = (open_document validate c bytes).0
called c (submits content) = submitted c (submit_content c content)
called c (acknowledges id outcome) = (acknowledge_save c id outcome).0
called c (resolves id published) = (resolve_save c id published).0
called c (attempts t) = (transition c t).0

abbrev pub Retained : Container → ℕ → Bytes → Type 0
Retained c id bytes =
    (k : ContainerCandidate) × (c.candidate ≡ some k) × (k.operation_id ≡ id) × (bytes ≡ k.bytes)

-- The bytes that a call may put in the place of the committed image.
abbrev pub Replaces : Call → Container → Bytes → Type 0
Replaces (opens validate document) c bytes =
    (c.state.access ≡ closed) × (validate document ≡ ok tt) × (bytes ≡ document)
Replaces (submits content) c bytes = ⊥
Replaces (acknowledges id outcome) c bytes = (outcome ≡ verified) × Retained c id bytes
Replaces (resolves id published) c bytes = (published ≡ true) × Retained c id bytes
Replaces (attempts t) c bytes = (t ≡ StateTransition.close) × (bytes ≡ [])

-- The committed image stays as it is, or a call replaces it: an opening, of a closed container, by
-- the document that was validated; a verified result or the report that a candidate was published,
-- by the bytes of the retained candidate that it names; and `Close` by nothing. A submission and
-- the other public transitions never do.
pub called-committed_bytes :
    (c : Container) (call : Call)
    → ((called c call).committed_bytes ≡ c.committed_bytes)
      ⊎ Replaces call c (called c call).committed_bytes
unfolding open_document submit_content acknowledge_save resolve_save transition install_transition
called-committed_bytes c (opens validate bytes) = ground arith
called-committed_bytes c (submits content) = ground arith
called-committed_bytes c (acknowledges id outcome) = ground arith
called-committed_bytes c (resolves id published) = ground arith
called-committed_bytes c (attempts t) = ground arith

-- An opening that throws leaves the whole container as it was.
pub open_document-unchanged :
    (validate : Bytes → Outcome Thrown (Unit {0})) (c : Container) (bytes : Bytes) (e : Thrown)
    → (open_document validate c bytes).1 ≡ err e
    → (open_document validate c bytes).0 ≡ c
unfolding open_document install_transition
open_document-unchanged validate c bytes e h = ground arith
