-- ===== src/Graph.antt =====
-- The knowledge graph, crates/aa-graph/src/lib.rs. A method that takes `&mut self` returns its result
-- beside the new store; iterators are lists.
pub mod Fact
pub mod Store
pub mod Insert
pub mod Counts
pub mod Unify
pub mod Match
pub mod Tests
