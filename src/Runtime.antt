-- ===== src/Runtime.antt =====
-- runtime/: the services around the kernel, from a proposal to a decision.
pub mod Policy
pub mod Sandbox
pub mod Calls
pub mod Store
pub mod Flight
pub mod Decision
pub mod Propose
pub mod Human
pub mod Service
