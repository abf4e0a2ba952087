-- ===== src/Snapshot.antt =====
-- src/format/snapshot_revision.cpp: the earlier format, of one snapshot.
pub mod Data
pub mod Ancestors
pub mod Orders
pub mod Finishes
pub mod Acyclic
pub mod Encoding
pub mod Decoding
pub mod Validation
pub mod Parts
pub mod Required
pub mod Optional
pub mod Tails
pub mod Groups
pub mod Wholes
pub mod Validated
pub mod Fuel
pub mod Spending
pub mod VisitEnds
pub mod Bounds
pub mod DecodeEnds
pub mod RoundTrip
