-- ===== src/Ports.antt =====
-- crates/client/src/ports.rs: which port a listener tries to bind.
pub mod Ranges
pub mod Plans
pub mod Candidates
pub mod Exactness
mod Tests
