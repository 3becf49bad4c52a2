-- ===== src/Placements.antt =====
-- controller/src/lib/placements.ts: one logical lab on one node, its life and its members.
pub mod Config
pub mod Tables
pub mod Ports
pub mod Only
pub mod Tasks
pub mod Members
pub mod Create
pub mod Change
pub mod Teardown
pub mod Removal
pub mod Credentials
pub mod Closed
pub mod Invariant
pub mod Owners
pub mod Lookup
pub mod Destruction
pub mod Refusals
pub mod Secrecy
pub mod Admission
