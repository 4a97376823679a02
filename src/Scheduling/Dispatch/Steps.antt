-- ===== src/Scheduling/Dispatch/Steps.antt =====
-- What any workers do to the keys, the leases and the results, in any order and at any times.
use teardrop.Common.{Bool, Option, arith, true, ℕ, ◌*◌, ◌+◌, ◌≡◌, ◌≤◌}
use teardrop.Scheduling.Dispatch.{
  LeaseOutcome, Reservation, renew_event_dispatch_lease, reserve_event_dispatch_lease,
  start_event_dispatch_lease,
}
use teardrop.Scheduling.Dispatch.Retention.{delete_event_dispatch_keys}
use teardrop.Scheduling.Dispatch.Settle.{
  ensure_result, fail_event_dispatch, finish_event_dispatch_lease, record_scheduled_run_result,
  recover_expired_event_dispatches,
}
use teardrop.Scheduling.Marks.{mark_scheduled_run_failed}
use teardrop.Scheduling.Schedules.Update.{delete_scheduled_run}
use teardrop.Scheduling.Tables.{ErrorText, RunResult, ScheduleDb, ScheduledRun, update_schedule}
use teardrop.Schema.{OnOk, day_us, ok}

-- Of the deletions that the retention makes, those whose cut-off is at `horizon` or before; of the
-- schedules, those of `gone` are deleted.
pub data LeaseStep (horizon : ℕ) (gone : ℕ → Bool) : ScheduleDb → ScheduleDb → Type 0 where
  reserves :
      (now : ℕ) (q : Reservation) {out : LeaseOutcome} {d d' : ScheduleDb}
      → reserve_event_dispatch_lease now q d ≡ ok (out, d')
      → LeaseStep horizon gone d d'
  starts :
      (now run_id owner seconds : ℕ) {d : ScheduleDb}
      → LeaseStep horizon gone d (start_event_dispatch_lease now run_id owner seconds d).1
  renews :
      (now run_id owner seconds : ℕ) {d : ScheduleDb}
      → LeaseStep horizon gone d (renew_event_dispatch_lease now run_id owner seconds d).1
  finishes :
      (now schedule org run_id owner : ℕ) (r : RunResult) {d : ScheduleDb}
      → LeaseStep horizon gone d (finish_event_dispatch_lease now schedule org run_id owner r d).1
  fails :
      (now schedule org run_id owner limit : ℕ) (error : ErrorText) {out : Option RunResult}
      {d d' : ScheduleDb}
      → fail_event_dispatch now schedule org run_id owner limit error d ≡ ok (out, d')
      → LeaseStep horizon gone d d'
  recovers :
      (now batch limit : ℕ) {n : ℕ} {d d' : ScheduleDb}
      → recover_expired_event_dispatches now batch limit d ≡ ok (n, d')
      → LeaseStep horizon gone d d'
  records :
      (r : RunResult) {out : RunResult} {d d' : ScheduleDb}
      → record_scheduled_run_result r d ≡ ok (out, d')
      → LeaseStep horizon gone d d'
  marks :
      (id : ℕ) (f : ScheduledRun → ScheduledRun) {d : ScheduleDb}
      → LeaseStep horizon gone d (update_schedule id f d)
  expires :
      (now days limit : ℕ) {d : ScheduleDb}
      → now ≤ horizon + days * day_us
      → LeaseStep horizon gone d (delete_event_dispatch_keys now days limit d)
  deletes_schedule :
      (id org : ℕ) {d : ScheduleDb}
      → gone id ≡ true
      → LeaseStep horizon gone d (delete_scheduled_run id org d).1
  writes_other_tables :
      {d d' : ScheduleDb}
      → d'.event_dispatch_keys ≡ d.event_dispatch_keys
      → d'.event_dispatch_leases ≡ d.event_dispatch_leases
      → LeaseStep horizon gone d d'

pub data LeaseSteps (horizon : ℕ) (gone : ℕ → Bool) : ScheduleDb → ScheduleDb → Type 0 where
  no_steps : {d : ScheduleDb} → LeaseSteps horizon gone d d
  then_lease_step :
      {d e f : ScheduleDb}
      → LeaseSteps horizon gone d e
      → LeaseStep horizon gone e f
      → LeaseSteps horizon gone d f

-- What a result that is made sure of leaves alone.
abbrev pub KeepsLeases : ScheduleDb → ScheduleDb → Type 0
KeepsLeases d d' =
    (d'.event_dispatch_leases ≡ d.event_dispatch_leases)
    × (d'.event_dispatch_keys ≡ d.event_dispatch_keys)

pub ensure_result-Kept :
    (now schedule org run_id limit : ℕ) (error : ErrorText) (d : ScheduleDb)
    → OnOk (λ out. KeepsLeases d out.1) (ensure_result now schedule org run_id limit error d)
unfolding ensure_result mark_scheduled_run_failed
ensure_result-Kept now schedule org run_id limit error d = ground arith
