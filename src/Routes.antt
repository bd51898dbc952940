-- ===== src/Routes.antt =====
-- Routes of the API, api/src/brokerops_api/routes.
pub mod Approvals
pub mod Webhooks
pub mod Cron
