-- ===== src/Stores/CronRuns.antt =====
-- InMemoryCronRunStore: one row for each job, the latest.
use brokerops.Base.{ℕ, String, Option}
use brokerops.Base.Dict.{lookup, insert}
use brokerops.Models.CronRun.{CronRun, CronRunRecord}
use brokerops.World.{Exec, gets, modify, pure, reading, ◌>>=◌, ◌>>◌}

-- `now` is the n-th reading of the clock.
unfoldable pub record_run : (ℕ → ℕ) → CronRun → Exec CronRunRecord
unfolding insert
record_run now run = reading now >>= λ at.
    let row : CronRunRecord = record { run = run; finished_at = at } in
    (modify (λ w. record w { cron_runs = insert run.job row w.cron_runs }) >> pure row)

unfoldable pub latest : String → Exec (Option CronRunRecord)
unfolding lookup
latest job = gets (λ w. lookup job w.cron_runs)
