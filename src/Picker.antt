-- ===== src/Picker.antt =====
-- plugin/src/picker/mod.rs: an active selection. An operation reads the clock once.
pub mod Entries
pub mod Reports
pub mod Follows
pub mod Settled
mod Tests
