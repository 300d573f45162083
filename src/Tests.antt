-- ===== src/Tests.antt =====
-- Runs of the kernel on small inputs: a platform and a world, and the theorems applied to them.
mod Toy
mod Components
mod Authorization
mod Proposals
mod Runs
mod Services
mod Repository
mod Admission
