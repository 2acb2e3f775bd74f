-- ===== src/Lib.antt =====
-- Verification of the aye-aye core, a workspace of Rust crates under crates/.
--
-- Texts. A Rust `String` is the list of its UTF-8 bytes (`Str`); lengths and counters are unbounded
-- natural numbers. Maps are association lists, sets are lists without duplicates. A
-- `BTreeMap` that is iterated over is given in its order, and `btree_insert` keeps it.
--
-- Graph: crates/aa-graph/src/lib.rs. Facts, the store with its buckets and arities, unification.
-- Rules: crates/aa-rules/src. The syntax tree, the fixpoint evaluator and the tracer. The loop of
-- `evaluate` takes fuel: one unit for each round. The candidate facts of a program over a store are
-- its heads over the atoms at hand, and more fuel than there are candidates is enough.
-- Rules/Lexer and Rules/Parser are parser.rs: `src[pos..]` is the list of the bytes that are left, and every
-- loop of it has more fuel than bytes. Rules/Print is a printer of the syntax that the parser reads.
--
-- Llm: crates/aa-llm/src, the selection of a context, the prompts, the cache, propose.rs and refine.rs. The
-- provider is an interface; the JSON reader and the hash of the standard library are arguments. The
-- refinement loop runs on the rounds that are left, so it needs no fuel. A temperature is its bits.
--
-- Explain: crates/aa-explain/src. Impact: crates/aa-core/src/test_impact.rs, the worklist over the calls and
-- the selection of the tests; the catalog of the functions is an argument. The worklist takes fuel, two more
-- than the catalog has identifiers, which is enough.
--
-- Commit: crates/aa-core/src/apply.rs, journal.rs and rollback.rs, and the entry that
-- crates/aa-core/src/handlers.rs journals. Commit/Disk is what is used of the file system: a disk maps
-- paths to contents, the outcome of each call is an argument, and nobody else writes between the calls.
-- The commit id is an argument too. Error texts are reduced to the step and the file. The JSON codec of
-- the journal is a parameter; its hypothesis is that it reads what it wrote.
--
-- Memory: crates/aa-core/src/memory.rs, the history and the statistics, and `list` of journal.rs, whose
-- directory and JSON reader are arguments.
--
-- Rename: crates/aa-patch/src/typed_rename.rs, crates/aa-ra-client/src/types.rs and
-- crates/aa-core/src/ra_pool.rs. What is done with the edits that rust-analyzer sends; the server itself
-- and the JSON reader are not modelled, a JSON value is what the code looks up in it. Paths are normal.
-- Rename/Position says, apart from the code, what a position of the protocol names in a text.
--
-- Csm: crates/aa-csm/src/lib.rs and crates/aa-core/src/lower.rs, a fragment of the semantic model and its
-- facts. Validate: crates/aa-validate/src and the rule stage of crates/aa-core/src/validate_stages.rs,
-- which loads the shadow files into Graph and runs Rules. The Rust parser and analyzer are parameters;
-- the text of a diagnostic is its parts.
--
-- Patch: crates/aa-patch/src/ops.rs and plan.rs. The transforms of single operations, which walk syntax
-- trees of the crate `syn`, the resolver and the renderer of diffs are an interface that the planner
-- takes as an argument. Patch/Resolver: the two resolvers, `resolve` of typed_rename.rs and
-- `resolve_inner` of crates/aa-core/src/ra_pool.rs, over a language server that is an argument.
--
-- Retry: crates/aa-ra-client/src/retry.rs. The replies of the server and the clock are arguments; the loop
-- takes one unit of fuel for each attempt, and more than the index of an attempt after which the deadline
-- has passed is enough.
--
-- Not modelled: the crates that only move data in and out (aa-cli, aa-daemon, the JSON of aa-protocol), the
-- subprocesses of aa-ra-client and of the cargo stages, the syntax tree walks of aa-lang-rust and of the
-- transforms of aa-patch, and so far the message framing, the sessions and the
-- patch plans of the language model crate.
pub mod Commit
pub mod Csm
pub mod Explain
pub mod Graph
pub mod Impact
pub mod Llm
pub mod Memory
pub mod Patch
pub mod Prelude
pub mod Rename
pub mod Retry
pub mod Rules
pub mod Validate
