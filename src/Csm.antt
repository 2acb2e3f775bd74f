-- ===== src/Csm.antt =====
-- The common semantic model, crates/aa-csm/src/lib.rs, and its facts, crates/aa-core/src/lower.rs.
pub mod Model
pub mod Lower
