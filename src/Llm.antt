-- ===== src/Llm.antt =====
-- The language model crate, crates/aa-llm/src.
pub mod Context
pub mod Prompt
pub mod Provider
pub mod Propose
pub mod Refine
mod Tests
