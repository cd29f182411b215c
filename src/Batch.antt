-- ===== src/Batch.antt =====
-- crates/client/src/batch.rs: batches of tool calls, checked and scheduled.
pub mod Spec
pub mod Schedule
pub mod Counting
pub mod Readiness
pub mod Runs
pub mod Limits
pub mod Plans
pub mod Edges
pub mod Report
pub mod Ending
pub mod Ids
pub mod Checks
mod Tests
pub mod Outcomes
