-- ===== src/Retry.antt =====
-- The retry of renames on a server that is still indexing, crates/aa-ra-client/src/retry.rs.
pub mod Poll
pub mod Polled
pub mod Tests
