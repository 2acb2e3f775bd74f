-- ===== src/Commit.antt =====
-- Changes to the files of a workspace, crates/aa-core/src: the transactional apply, the journal
-- and the rollback.
pub mod Disk
pub mod Apply
pub mod Journal
pub mod Rollback
pub mod TestCodec
pub mod Tests
pub mod UndoTests
