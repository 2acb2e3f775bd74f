-- ===== src/Rules.antt =====
-- The Datalog engine, crates/aa-rules.
pub mod Ast
pub mod Lexer
pub mod Print
pub mod Parser
pub mod Eval
pub mod Body
pub mod Solve
pub mod Model
pub mod Fire
pub mod Batch
pub mod Loop
pub mod Sound
pub mod Least
pub mod Values
pub mod Base
pub mod Terminates
pub mod Stats
pub mod Tests
pub mod Trace
