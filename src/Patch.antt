-- ===== src/Patch.antt =====
-- Patch plans, crates/aa-patch/src/ops.rs and plan.rs.
pub mod Ops
pub mod Plan
pub mod Resolver
pub mod Preview
pub mod Tests
