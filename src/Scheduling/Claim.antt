-- ===== src/Scheduling/Claim.antt =====
-- scheduling/crud.py, claim_due_schedules: the rows that are due move on to their next run. No row is
-- locked by another claim, so none is skipped.
pub mod Steps
pub mod Disjoint
use mathlib.Core.Option
use teardrop.Common.{
  Bool, Keyed, Option, [], false, leb, ltb, none, select, some, sort_by, take, ℕ, ◌&&◌, ◌==◌, ◌||◌,
  ◌∷◌,
}
use teardrop.Delegation.Resolution.{due}
use teardrop.Scheduling.Schedules.{seconds_after}
use teardrop.Scheduling.Tables.{ScheduleDb, ScheduledRun, is_interval, update_schedule}

unfoldable pub is_due_schedule : ℕ → ScheduledRun → Bool
is_due_schedule now r =
    r.enabled
    && is_interval r.schedule_kind
    && elim r.next_run_at [ none ↦ false | some t ↦ leb t now ]

abbrev run_time : ScheduledRun → ℕ
run_time r = elim r.next_run_at [ none ↦ 0 | some t ↦ t ]

-- ORDER BY next_run_at ASC, id ASC
abbrev pub runs_before : ℕ × ScheduledRun → ℕ × ScheduledRun → Bool
runs_before (i, r) (j, s) = ltb (run_time r) (run_time s) || (run_time r == run_time s && leb i j)

unfoldable pub due_schedules : ℕ → ℕ → ScheduleDb → Keyed ScheduledRun
unfolding is_due_schedule
due_schedules now limit d =
    take limit (sort_by runs_before (select (λ row. is_due_schedule now row.1) d.scheduled_runs))

-- NOW() + interval; NULL + … is NULL
unfoldable pub claimed_schedule : ℕ → ScheduledRun → ScheduledRun
claimed_schedule now r = record r {
  next_run_at = Option.map (seconds_after now) r.interval_seconds;
  updated_at = now;
}

unfoldable pub claim_each : ℕ → Keyed ScheduledRun → ScheduleDb → ScheduleDb
unfolding claimed_schedule
claim_each now [] d = d
claim_each now ((id, _) ∷ rest) d =
    claim_each now rest (update_schedule id (claimed_schedule now) d)

-- RETURNING: the rows as they are then
unfoldable pub claimed_rows : ℕ → Keyed ScheduledRun → Keyed ScheduledRun
unfolding claimed_schedule
claimed_rows now [] = []
claimed_rows now ((id, r) ∷ rest) = (id, claimed_schedule now r) ∷ claimed_rows now rest

unfoldable pub claim_due_schedules : ℕ → ℕ → ScheduleDb → Keyed ScheduledRun × ScheduleDb
unfolding due_schedules claim_each claimed_rows
claim_due_schedules now limit d =
    let due = due_schedules now limit d in (claimed_rows now due, claim_each now due d)
