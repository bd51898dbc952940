-- ===== src/Milestones.antt =====
-- The milestone rules: services/milestone_engine.py, services/milestone_schedule.py and
-- services/transaction_open.py.
pub mod Dates
pub mod Engine
pub mod Queue
pub mod Notes
pub mod Schedule
pub mod Opening
