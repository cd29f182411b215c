-- ===== src/Resources.antt =====
-- plugin/src/workflow/resources.rs: leases on named resources, the quarantine of resources whose
-- last operation has an unknown outcome, and the history of late settlements.
pub mod Paths
pub mod State
pub mod Arbiter
pub mod Scopes
pub mod Entries
pub mod Steps
pub mod Exclusion
pub mod History
pub mod Races
pub mod Waiting
pub mod Tools
pub mod Admission
mod Tests
