-- ===== src/Store.antt =====
-- crates/overlord-agent-emule/src/kad_store.rs and kad_search_expr.rs: the Kad publish cache.
pub mod FileSize
pub mod Expr
pub mod Query
pub mod Entries
pub mod Tags
pub mod Publish
pub mod Search
pub mod Keyed
pub mod Invariant
pub mod Preserve
pub mod Run
pub mod Load
pub mod Answers
pub mod Found
mod Tests
