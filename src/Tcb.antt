-- ===== src/Tcb.antt =====
-- orchestrator/tcb/: the checks by which an outer tool admits patches to the repository.
pub mod Texts
pub mod Trust
pub mod Contracts
pub mod Phases
pub mod State
pub mod Patch
