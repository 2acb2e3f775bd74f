-- ===== src/Rename.antt =====
-- The renames that rust-analyzer resolves: crates/aa-patch/src/typed_rename.rs, the copies of its
-- functions in crates/aa-core/src/ra_pool.rs, and the types of crates/aa-ra-client/src/types.rs.
pub mod Edits
pub mod Splice
pub mod Bounds
pub mod Workspace
pub mod Position
pub mod Pool
pub mod Tests
