-- ===== src/Membership.antt =====
-- Labs and students together (controller/src/lib/labs.ts and students.ts): what their operations
-- keep, and that a lab can be taken down.
pub mod Closed
pub mod Operations
pub mod Requests
pub mod Heads
pub mod Invariant
pub mod Sequences
pub mod Blocking
pub mod Emptying
pub mod Steps
pub mod Loops
pub mod Listing
pub mod Destruction
