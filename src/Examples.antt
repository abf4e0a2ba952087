-- ===== src/Examples.antt =====
-- Runs of the model, and the theorems at concrete inputs.
mod Sessions
mod Encodings
mod Containers
mod Leases
mod Slots
mod Graphs
mod Snapshots
