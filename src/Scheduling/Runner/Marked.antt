-- ===== src/Scheduling/Runner/Marked.antt =====
-- What the writes of a run leave on its schedule and among the results.
use teardrop.Common.{
  ==_refl, Bool, Keyed, Option, ap, arith, false, if◌then◌else◌, leb, lookup, lookup-update_key,
  ltb, none, refl, some, sym, true, update_key, ℕ, ◌&&◌, ◌+◌, ◌∙◌, ◌∷◌, ◌≡◌,
}
use teardrop.Scheduling.Broadcast.{
  RunnerSettings, RunnerState, post_reserved, publish_x_broadcast, record_x_broadcast_tweet,
  reserve_x_broadcast, with_tweet,
}
use teardrop.Scheduling.Dispatch.Settle.{find_result, record_scheduled_run_result}
use teardrop.Scheduling.Marks.{
  failed_schedule, mark_scheduled_run_failed, mark_scheduled_run_succeeded, succeeded_row,
}
use teardrop.Scheduling.Runner.{
  TaskState, agent_completed, agent_failed, agent_timed_out, mark_run, run_status,
}
use teardrop.Scheduling.Tables.{
  RunResult, RunStatus, ScheduleDb, ScheduledRun, is_there, run_completed, run_failed, run_skipped,
  run_timeout,
}
use teardrop.Schema.{OnOk}

-- The count of the failures after a run with this status, and whether the schedule is enabled.
abbrev pub failures_after : RunStatus → ℕ → ℕ
failures_after run_completed n = 0
failures_after run_failed n = n + 1
failures_after run_timeout n = n + 1
failures_after run_skipped n = n

abbrev pub enabled_after : ℕ → RunStatus → ℕ → Bool → Bool
enabled_after limit run_failed n e = e && ltb (n + 1) limit
enabled_after limit run_timeout n e = e && ltb (n + 1) limit
enabled_after limit _ n e = e

-- A run's trace: its result is new and the last one, and its schedule counts it.
abbrev pub IsRecorded :
    (limit schedule run_id : ℕ) → ScheduledRun → RunnerState → RunResult × RunnerState → Type 0
IsRecorded limit schedule run_id before st (r, st') =
    (is_there (find_result schedule run_id st.tables) ≡ false)
    × (st'.tables.scheduled_run_results ≡ r ∷ st.tables.scheduled_run_results)
    × (r.run_id ≡ run_id)
    × ((after : ScheduledRun) × (lookup schedule st'.tables.scheduled_runs ≡ some after)
        × (after.consecutive_failures ≡ failures_after r.status before.consecutive_failures)
        × (after.enabled ≡ enabled_after limit r.status before.consecutive_failures before.enabled))

abbrev pub Inserted : RunResult → ScheduleDb → RunResult × ScheduleDb → Type 0
Inserted r d (stored, d') =
    (stored ≡ r)
    × (d' ≡ record d { scheduled_run_results = r ∷ d.scheduled_run_results })
    × (is_there (find_result r.schedule_id r.run_id d) ≡ false)

pub record_scheduled_run_result-Inserted :
    (r : RunResult) (d : ScheduleDb) → OnOk (Inserted r d) (record_scheduled_run_result r d)
unfolding record_scheduled_run_result
record_scheduled_run_result-Inserted r d = ground arith

-- A mark on the row of the schedule.
pub marked_row :
    (schedule : ℕ) (f : ScheduledRun → ScheduledRun) (t : Keyed ScheduledRun)
    (before : ScheduledRun)
    → lookup schedule t ≡ some before
    → lookup schedule (update_key schedule f t) ≡ some (f before)
marked_row schedule f t before found =
    rw (lookup-update_key schedule schedule f t, ==_refl schedule, found) refl

enabled_below :
    (e : Bool) (limit n : ℕ) → (if leb limit (n + 1) then false else e) ≡ (e && ltb (n + 1) limit)
enabled_below true limit n = ground arith
enabled_below false limit n = ground arith

pub mark_run_results :
    (now limit schedule : ℕ) (status : RunStatus) (d : ScheduleDb)
    → (mark_run now limit schedule status d).scheduled_run_results ≡ d.scheduled_run_results
unfolding mark_run mark_scheduled_run_succeeded mark_scheduled_run_failed
mark_run_results now limit schedule status d = ground arith

pub mark_run-Counts :
    (now limit schedule : ℕ) (state : TaskState) (d : ScheduleDb) (before : ScheduledRun)
    → lookup schedule d.scheduled_runs ≡ some before
    → (after : ScheduledRun) × (lookup schedule
          (mark_run now limit schedule (run_status state) d).scheduled_runs
        ≡ some after)
      × (after.consecutive_failures ≡ failures_after (run_status state) before.consecutive_failures)
      × (after.enabled
          ≡ enabled_after limit (run_status state) before.consecutive_failures before.enabled)
unfolding mark_run mark_scheduled_run_succeeded mark_scheduled_run_failed succeeded_row
    failed_schedule
mark_run-Counts now limit schedule agent_completed d before found = (
  succeeded_row now before,
  marked_row schedule (succeeded_row now) d.scheduled_runs before found,
  refl,
  refl,
)
mark_run-Counts now limit schedule agent_failed d before found = (
  failed_schedule now limit before,
  marked_row schedule (failed_schedule now limit) d.scheduled_runs before found,
  refl,
  enabled_below before.enabled limit before.consecutive_failures,
)
mark_run-Counts now limit schedule agent_timed_out d before found = (
  failed_schedule now limit before,
  marked_row schedule (failed_schedule now limit) d.scheduled_runs before found,
  refl,
  enabled_below before.enabled limit before.consecutive_failures,
)

pub inserted_results :
    (r : RunResult) (d : ScheduleDb) (stored : RunResult) (d' : ScheduleDb)
    → stored ≡ r
    → d' ≡ record d { scheduled_run_results = r ∷ d.scheduled_run_results }
    → d'.scheduled_run_results ≡ stored ∷ d.scheduled_run_results
inserted_results r d stored d' is_r is_d =
    ap (λ x. x.scheduled_run_results) is_d ∙ ap (λ x. x ∷ d.scheduled_run_results) (sym is_r)

pub publish_tables :
    (c : RunnerSettings) (post_text : ℕ → Option ℕ) (tweet : Option ℕ) (schedule org : ℕ)
    (stored : RunResult) (st : RunnerState)
    → let st' = publish_x_broadcast c post_text tweet schedule org stored st in
      (st'.tables.scheduled_runs ≡ st.tables.scheduled_runs)
      × (st'.tables.scheduled_run_results ≡ st.tables.scheduled_run_results)
unfolding publish_x_broadcast post_reserved reserve_x_broadcast with_tweet record_x_broadcast_tweet
publish_tables c post_text none schedule org stored st = ground arith
publish_tables c post_text (some tweet) schedule org stored st = ground arith
