-- ===== src/Ingest.antt =====
-- internal/ingest: which requests of an agent are accepted, and what a batch may make the server do.
pub mod Limit
pub mod Canonical
pub mod Verify
pub mod Nonces
pub mod Gate
pub mod Replay
