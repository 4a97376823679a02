-- ===== src/Scheduling/Marks.antt =====
-- scheduling/crud.py: the marks that a run leaves on its schedule.
pub mod Failures
use teardrop.Common.{false, if◌then◌else◌, leb, some, ℕ, ◌+◌}
use teardrop.Scheduling.Tables.{ScheduleDb, ScheduledRun, update_schedule}

-- mark_scheduled_run_skipped, …_succeeded and …_failed

unfoldable pub mark_scheduled_run_skipped : ℕ → ℕ → ScheduleDb → ScheduleDb
mark_scheduled_run_skipped now id d =
    update_schedule id (λ r. record r { last_run_at = some now; updated_at = now }) d

unfoldable pub succeeded_row : ℕ → ScheduledRun → ScheduledRun
succeeded_row now r = record r {
  last_run_at = some now;
  consecutive_failures = 0;
  updated_at = now;
}

unfoldable pub mark_scheduled_run_succeeded : ℕ → ℕ → ScheduleDb → ScheduleDb
unfolding succeeded_row
mark_scheduled_run_succeeded now id d = update_schedule id (succeeded_row now) d

unfoldable pub failed_schedule : ℕ → ℕ → ScheduledRun → ScheduledRun
failed_schedule now limit r = record r {
  last_run_at = some now;
  consecutive_failures = r.consecutive_failures + 1;
  enabled = if leb limit (r.consecutive_failures + 1) then false else r.enabled;
  updated_at = now;
}

unfoldable pub mark_scheduled_run_failed : ℕ → ℕ → ℕ → ScheduleDb → ScheduleDb
unfolding failed_schedule
mark_scheduled_run_failed now limit id d = update_schedule id (failed_schedule now limit) d
