-- ===== src/Tests.antt =====
-- Concrete inputs at which the theorems are used.
mod Data
mod Tenancy
mod Idempotency
mod Milestones
mod Comms
mod SignIn
mod Tools
mod Routes
mod Workflows
