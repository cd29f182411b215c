-- ===== src/Budget.antt =====
-- plugin/src/workflow/budget.rs: the retention budget that all runs share.
pub mod Charges
pub mod Accounting
pub mod Ledger
pub mod View
pub mod Refinement
mod Tests
