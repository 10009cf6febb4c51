-- ===== src/State.antt =====
-- internal/state/state.go: the state database. The SQLite engine is not modelled: each statement of
-- the source is read as a function on the tables, and a statement does not fail.
pub mod Rows
pub mod Nodes
pub mod Subtree
pub mod Meta
pub mod Activity
mod Tests
