-- ===== src/Lib.antt =====
-- SCPEFE: the common core of an editor for small encrypted text files.
--
-- The core keeps one container per document. src/container/container.cpp holds the committed
-- image, the clear text and at most one candidate for publication, and asks the state machine of
-- src/container/container_state.cpp before it changes anything. The state machine answers with a
-- new state and with effects that the host has to follow: journal a candidate, publish it, adopt
-- it, start or stop the heartbeat of the editing lease, clear the display. The image is encoded
-- with the CBOR reader and writer of src/format; src/format/revision_graph.cpp decodes it.
--
-- Which file models what:
--   Base            tests on numbers and bytes, lists, and `Outcome`: a call returns (`ok`),
--                   throws (`err`), or does what C++ leaves undefined (`fault`).
--   State           `ContainerStateManagerService::apply` of src/container/container_state.cpp:
--                   State.Session (open, unlock, lock, rights, lease,
--                   attention, close) and State.Publication (begin, acknowledge, host action,
--                   restore, resolve); the data is State.Types. Invariant, Effects, Protocol
--                   and Reports are about one transition; Runs, Writers, Late, Journal, Freshness and Host
--                   about histories of transitions, and what the host does with their effects.
--   Text            `valid_utf8` and `valid_canonical_document_text` of
--                   src/format/text_validation.cpp; Text.Utf8 has the independent description.
--   Cbor            src/format/cbor_reader.cpp (Cbor.Reader), src/format/cbor_writer.cpp
--                   (Cbor.Writer) and src/format/revision_limits.cpp (Cbor.Limits). Heads and
--                   Items are the round trips, Encodes carries them to chains of calls,
--                   Canonical is the converse, Safety the bounds, Locality what is consumed,
--                   Returns what holds of a value that was returned.
--   Csv             `valid_csv_source` of src/format/csv_source.hpp.
--   Container       src/container/container.cpp: Install (`install_transition`,
--                   `acknowledge_save`, `resolve_save`, `transition`), Content
--                   (`submit_content`), Leases (`advise_lease_entry`, and the checks and the new
--                   lease of `prepare_lease_change`), Opening (`open_document`). Opening, Adoption
--                   and Takeover hold the theorems.
--   Graph           src/format/revision_graph.cpp: Slots (`parse_slots`, `parse_owner`,
--                   `parse_lease`), Parsing (`parse_event_details` and the loop of
--                   `parse_immutable`), Body (`parse_body`, `parse_record`), Content
--                   (`apply_delta`, `reconstruct_at`), with the hash function as a parameter, and
--                   Lineage (`find`, `assess_target`). Changes is `PasswordSlots::apply` of
--                   src/container/password_slots.cpp on those slots. A property that the calls on
--                   a reader keep holds of the whole decoding (Closure, RecordClosure): that it
--                   reads within the input (Bounds), and that it looks at nothing behind what it
--                   consumed (Locality). Parsed, Collections, Accepted, Authority, Kept and
--                   Others are about the slots,
--                   Reconstruction about content.
--   History         src/format/revision_graph.cpp on a whole graph. `validate_graph`: Line and
--                   Merges (the records, and what a merge imports), Bodies, Compactions,
--                   Validation. `RevisionGraph::decode` is Decoding. Encoding has what the
--                   encoders share, and `replace_lease`; Saving `create_baseline` and
--                   `reconstruct`; NewRecords and Contents `save_content`; Events `append_event`;
--                   Compacting `compact_at`, and src/core/history_service.cpp; Delta and Merging
--                   `merge_with`; Comparing `compare`. WalkEnds, LineKnown, Closure and
--                   DecodeEnds are about the end of the decoding; MergeText, DeltaRoundTrip and
--                   MergeBody about the delta of a merge; LeaseRoundTrip, Restoring, Restored,
--                   Reencoded and Replacement about a graph that is written again.
--   Snapshot        src/format/snapshot_revision.cpp, the earlier format of one revision:
--                   Ancestors (`validate_ancestor_graph`), Encoding (`encode`), Decoding (`decode`
--                   up to its validation), Validation (`validate_data`, `create`, `decode`). Parts,
--                   Required, Optional and Tails have what the reader makes of each group of
--                   fields that the encoder writes, Wholes of all of them; Validated is about
--                   `validate_data`, Fuel about the decoding of a base, RoundTrip about a revision
--                   that is decoded again. Orders, Finishes, Acyclic and VisitEnds are about
--                   the visits of the ancestors; Spending, Bounds and DecodeEnds about the end of
--                   the decoding.
--   Examples        runs of the model, and the theorems at concrete inputs.
--
-- Bytes, ids and identities are lists of natural numbers; 64-bit values are natural numbers, and
-- where the source can wrap or saturate the model writes `% 2 ^ 64` or the test. A reader is the
-- bytes that are left and the position; a read behind the end is `fault`.
-- `skip_extension` is recursive up to the depth limit: its fuel is the number of levels
-- that are left, and the depth test ends it before the fuel does. `utf8_loop` takes the length of
-- the sequence as fuel, and each round consumes at least one byte. `find_anchor` starts with one
-- more than the index, and a parent stands before its record. `walk` starts with one more than
-- the sources of the merge and the references of all records, of which it expands each at most
-- once. `visit_node` starts with one more than the nodes, and each visit marks one more of them.
-- `decode_at` starts with one more than the length of its input, in which a revision that it
-- decodes further in is contained. All other functions are structurally recursive.
--
-- A call on a container returns the container as it is afterwards, also where it throws. Image
-- and candidate are the decoded values; of the revision graph the container keeps only the head.
--
-- Not modelled: encryption and the envelope around it, which call libsodium; the building of
-- candidates, which needs them; the diagnostic JSON, which is left for an extension; the services that
-- forward to the host; the wiping of memory, which values do not show; the C interface, the tools
-- and the applications, which marshal values; and zxcvbn-c, a copy of another project's library.
pub mod Base
pub mod State
pub mod Text
pub mod Csv
pub mod Cbor
pub mod Examples
pub mod Graph
pub mod History
pub mod Snapshot
pub mod Container
