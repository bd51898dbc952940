-- ===== src/Workflows.antt =====
-- Runs of the workflows, services/workflow_runs.py of core and orchestration/langgraph.
pub mod Runs
pub mod Engine
pub mod Messages
pub mod Graph
pub mod Marketing
pub mod Contract
pub mod Followup
pub mod CheckState
pub mod Coordination
