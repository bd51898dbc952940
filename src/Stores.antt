-- ===== src/Stores.antt =====
-- api/src/brokerops_api/db.py: the in-memory stores. A row is kept under its id.
pub mod Messages
pub mod Transactions
pub mod Approvals
pub mod Documents
pub mod Feedback
pub mod AuditLog
pub mod Claims
pub mod CronRuns
