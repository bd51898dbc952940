-- ===== src/Models.antt =====
-- The domain models (core/src/brokerops_core/models), one module for each group of files.
pub mod Role
pub mod Json
pub mod Transaction
pub mod Milestone
pub mod Message
pub mod Records
pub mod Contact
pub mod Drafting
pub mod Extraction
pub mod Listing
pub mod CronRun
