-- ===== src/Scheduling/Marks/Failures.antt =====
-- The count of the failures in a row, and when a schedule is disabled.
use teardrop.Common.{
  ==_refl, Bool, List, [], arith, false, if◌then◌else◌, leb, length, lookup, lookup-update_key, ltb,
  refl, some, suc, true, ℕ, ◌&&◌, ◌+◌, ◌==◌, ◌||◌, ◌∙◌, ◌∷◌, ◌≡◌,
}
use teardrop.Scheduling.Marks.{failed_schedule, mark_scheduled_run_failed}
use teardrop.Scheduling.Tables.{ScheduleDb, ScheduledRun}

-- The runs of one schedule that fail one after the other, at these times.
unfoldable pub fail_each : ℕ → ℕ → List ℕ → ScheduleDb → ScheduleDb
unfolding mark_scheduled_run_failed
fail_each limit id [] d = d
fail_each limit id (now ∷ times) d =
    fail_each limit id times (mark_scheduled_run_failed now limit id d)

enabled_step :
    (e : Bool) (limit c n : ℕ)
    → ((if leb limit (c + 1) then false else e) && (n == 0 || ltb (c + 1 + n) limit))
      ≡ (e && (suc n == 0 || ltb (c + suc n) limit))
enabled_step true limit c n = ground arith
enabled_step false limit c n = ground arith

-- When a schedule's runs fail n times in a row, its count grows by n and its kind stays; if n > 0 it
-- is enabled afterwards exactly if it was before and its count is below the limit.
pub fail_each_counts :
    (limit id : ℕ) (times : List ℕ) (d : ScheduleDb) (r : ScheduledRun)
    → lookup id d.scheduled_runs ≡ some r
    → (r' : ScheduledRun) × (lookup id (fail_each limit id times d).scheduled_runs ≡ some r')
      × (r'.consecutive_failures ≡ r.consecutive_failures + length times)
      × (r'.enabled
          ≡ (r.enabled && (length times == 0 || ltb (r.consecutive_failures + length times) limit)))
      × (r'.schedule_kind ≡ r.schedule_kind)
unfolding fail_each mark_scheduled_run_failed failed_schedule
fail_each_counts limit id [] d r found = (r, found, omega arith, ground arith, refl)
fail_each_counts limit id (now ∷ times) d r found =
    let d1 = mark_scheduled_run_failed now limit id d in
    let found1 : lookup id d1.scheduled_runs ≡ some (failed_schedule now limit r) =
      rw (lookup-update_key id id (failed_schedule now limit) d.scheduled_runs, ==_refl id, found)
        refl in
    let (r', found', count, enabled', kind) =
      fail_each_counts limit id times d1 (failed_schedule now limit r) found1 in
    (
      r',
      found',
      omega (arith, count),
      enabled' ∙ enabled_step r.enabled limit r.consecutive_failures (length times),
      kind,
    )
