-- ===== src/Hub.antt =====
-- controller/src/lib/hub.ts: the agents' sockets and the frames they send.
pub mod Ingest
pub mod Session
pub mod Drain
