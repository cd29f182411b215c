-- ===== src/Outcome.antt =====
-- crates/client/src/outcome.rs: what is known of an execution, apart from the business data.
pub mod Facts
pub mod Adapters
pub mod Verdicts
mod Tests
