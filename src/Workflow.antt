-- ===== src/Workflow.antt =====
-- crates/client/src/workflow: the workflow protocol, its validator and its expressions.
pub mod Spec
pub mod Exprs
pub mod Validate
pub mod Parse
pub mod References
pub mod Resolved
pub mod Literals
pub mod Bindings
mod Late
mod Tests
pub mod Sizes
pub mod Limits
