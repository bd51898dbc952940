-- ===== src/Models/CronRun.antt =====
-- CronRunRecord of api/src/brokerops_api/db.py: the latest outcome of a scheduled job.
use brokerops.Base.{ℕ, String, Option}

-- What a job reports of a pass.
pub record CronRun : Type 0 where
  pub job : String
  pub outcome : String
  pub checked : ℕ
  pub skipped_pending_escalation : ℕ
  pub email_tail_suppressed : ℕ
  pub error : Option String

pub record CronRunRecord : Type 0 where
  pub run : CronRun
  pub finished_at : ℕ
