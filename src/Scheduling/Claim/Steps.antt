-- ===== src/Scheduling/Claim/Steps.antt =====
-- What workers do to the schedules while one of them waits for its next run.
use teardrop.Common.{ℕ, ◌<◌, ◌≡◌}
use teardrop.Scheduling.Claim.{claim_due_schedules}
use teardrop.Scheduling.Tables.{ScheduleDb, ScheduledRun, update_schedule}

-- What workers do to the schedules before the time `end`: claims, and writes that leave the next run
-- of each schedule where it is. The requests that move it (run now, a change of the interval), the
-- requeue after a lack of capacity and the deletions are none of these.
pub data ClaimStep (end : ℕ) : ScheduleDb → ScheduleDb → Type 0 where
  claims_due :
      (now limit : ℕ) {d : ScheduleDb}
      → now < end
      → ClaimStep end d (claim_due_schedules now limit d).1
  writes_row :
      (k : ℕ) (f : ScheduledRun → ScheduledRun) {d : ScheduleDb}
      → ((r : ScheduledRun) → (f r).next_run_at ≡ r.next_run_at)
      → ClaimStep end d (update_schedule k f d)
  writes_elsewhere : {d d' : ScheduleDb} → d'.scheduled_runs ≡ d.scheduled_runs → ClaimStep end d d'

pub data ClaimSteps (end : ℕ) : ScheduleDb → ScheduleDb → Type 0 where
  no_claim_steps : {d : ScheduleDb} → ClaimSteps end d d
  then_claim_step :
      {d e f : ScheduleDb} → ClaimSteps end d e → ClaimStep end e f → ClaimSteps end d f
