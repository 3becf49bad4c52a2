-- ===== src/Store.antt =====
-- The authoritative database (controller/src/lib/db.ts), one record per table row with the columns
-- the modelled code reads or writes, and the state that an operation runs over.
pub mod Rows
pub mod World
pub mod Keeps
pub mod Refusals
