-- ===== src/Graph.antt =====
-- src/format/revision_graph.cpp: the decoding of slots, leases and records.
pub mod Records
pub mod Slots
pub mod Parsing
pub mod Body
pub mod Content
pub mod Closure
pub mod RecordClosure
pub mod Bounds
pub mod Locality
pub mod Changes
pub mod Authority
pub mod Parsed
pub mod Collections
pub mod Accepted
pub mod Kept
pub mod Others
pub mod Reconstruction
pub mod Lineage
