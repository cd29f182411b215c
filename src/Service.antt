-- ===== src/Service.antt =====
-- plugin/src/workflow/service.rs: a run of a workflow, from one dispatched step to the next.
pub mod State
pub mod Calls
pub mod Steps
pub mod Drive
pub mod Resume
pub mod Registry
pub mod Identity
pub mod Capacity
pub mod Acts
pub mod Observations
pub mod Phases
pub mod Executions
pub mod Settled
pub mod Reported
pub mod Endings
pub mod Rounds
pub mod Safety
pub mod Requests
pub mod Guarantees
mod Tests
mod RegistryTests
