-- ===== src/Validate.antt =====
-- The validation of a proposed change: crates/aa-validate/src, and the rule stage of
-- crates/aa-core/src/validate_stages.rs. The parts of a diagnostic's text are kept apart.
pub mod Stage
pub mod Pipeline
pub mod Stages
pub mod Tests
