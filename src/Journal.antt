-- ===== src/Journal.antt =====
-- plugin/src/workflow/journal.rs: the durable history of workflow runs, one JSON line for a record.
pub mod Records
pub mod Reader
pub mod Writer
pub mod Recovery
pub mod Durability
pub mod Restart
pub mod Order
mod Tests
