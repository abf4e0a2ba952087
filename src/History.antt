-- ===== src/History.antt =====
-- The operations of `RevisionGraph` in src/format/revision_graph.cpp on a whole graph.
pub mod Line
pub mod Merges
pub mod WalkEnds
pub mod Bodies
pub mod Compactions
pub mod Validation
pub mod Decoding
pub mod Encoding
pub mod Saving
pub mod NewRecords
pub mod Contents
pub mod Events
pub mod Compacting
pub mod Delta
pub mod Merging
pub mod Comparing
pub mod MergeText
pub mod LeaseRoundTrip
pub mod Closure
pub mod LineKnown
pub mod DecodeEnds
pub mod Restoring
pub mod Restored
pub mod Reencoded
pub mod Replacement
pub mod DeltaRoundTrip
pub mod MergeBody
