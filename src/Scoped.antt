-- ===== src/Scoped.antt =====
-- services/scoped_stores.py: the decorators that confine a store to the bound tenant.
pub mod Messages
pub mod Transactions
pub mod Approvals
pub mod Documents
pub mod Feedback
pub mod Foreign
