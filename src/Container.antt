-- ===== src/Container.antt =====
-- src/container/container.cpp: the session that installs transitions, and its lease decisions.
pub mod Session
pub mod Leases
pub mod Takeover
pub mod Install
pub mod Content
pub mod Opening
pub mod Adoption
