-- ===== src/Cbor.antt =====
-- src/format/cbor_reader.cpp and cbor_writer.cpp: the deterministic CBOR subset of the records.
pub mod Limits
pub mod Reading
pub mod Reader
pub mod Writer
pub mod Heads
pub mod Canonical
pub mod Safety
pub mod Items
pub mod Locality
pub mod Encodes
pub mod Returns
