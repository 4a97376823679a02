-- ===== src/Scheduling/Dispatch/Settle.antt =====
-- scheduling/crud.py: the ways to a terminal lease, by the worker that owns it and by the recovery of
-- the expired ones; with record_scheduled_run_result.
use teardrop.Common.{
  Bool, Keyed, Option, [], false, find?, if◌then◌else◌, leb, length, lookup, ltb, none, not, select,
  some, sort_by, take, true, ℕ, ◌&&◌, ◌==◌, ◌||◌, ◌∷◌,
}
use teardrop.Scheduling.Dispatch.{finds_lease, is_live}
use teardrop.Scheduling.Marks.{mark_scheduled_run_failed}
use teardrop.Scheduling.Tables.{
  DispatchLease, ErrorText, LeaseStatus, RunResult, RunStatus, ScheduleDb, TriggerEvent,
  event_run_failed, insert_event_row, is_there, recovery_timed_out, run_failed, run_settled,
  terminal_error, terminal_status, update_lease,
}
use teardrop.Schema.{Result, err, foreign_key_violation, ok, runtime_error, unique_violation, ◌>>=◌}

-- record_scheduled_run_result: the pair of the schedule and the run is unique.

unfoldable pub find_result : ℕ → ℕ → ScheduleDb → Option RunResult
find_result schedule run_id d =
    find? (λ r. r.schedule_id == schedule && r.run_id == run_id) d.scheduled_run_results

-- The same with AND org_id = $2; get_scheduled_run_result.
unfoldable pub get_scheduled_run_result : ℕ → ℕ → ℕ → ScheduleDb → Option RunResult
get_scheduled_run_result schedule org run_id d =
    find? (λ r. r.schedule_id == schedule && (r.org_id == org && r.run_id == run_id))
      d.scheduled_run_results

unfoldable pub record_scheduled_run_result :
    RunResult → ScheduleDb → Result (RunResult × ScheduleDb)
unfolding find_result
record_scheduled_run_result r d =
    if is_there (find_result r.schedule_id r.run_id d)
    then err unique_violation
    else if not (is_there (lookup r.schedule_id d.scheduled_runs))
    then err foreign_key_violation
    else ok (r, record d { scheduled_run_results = r ∷ d.scheduled_run_results })

-- The terminal UPDATE of a lease.
unfoldable pub terminal_lease : ℕ → LeaseStatus → ErrorText → DispatchLease → DispatchLease
terminal_lease now status error l = record l {
  status = status;
  finished_at = some now;
  lease_expires_at = now;
  last_error = error;
  updated_at = now;
}

abbrev settled_event : (schedule org run_id : ℕ) → RunStatus → ℕ → ErrorText → TriggerEvent
settled_event schedule org run_id status cost error = record {
  schedule_id = schedule;
  org_id = org;
  run_id = some run_id;
  event_type = run_settled;
  status = some status;
  cost_usdc = cost;
  error = error;
}

-- finish_event_dispatch_lease

unfoldable pub is_finishable : ℕ → DispatchLease → Bool
unfolding is_live
is_finishable owner l = l.owner_id == owner && is_live l

unfoldable pub finished_lease : ℕ → ℕ → RunStatus → DispatchLease → DispatchLease
unfolding is_finishable terminal_lease
finished_lease now owner status l =
    if is_finishable owner l
    then terminal_lease now (terminal_status status) (terminal_error status event_run_failed) l
    else l

unfoldable pub finish_event_dispatch_lease :
    (now schedule org run_id owner : ℕ) → RunResult → ScheduleDb → Bool × ScheduleDb
unfolding is_finishable finished_lease
finish_event_dispatch_lease now schedule org run_id owner r d =
    if finds_lease run_id (is_finishable owner) d
    then (
      true,
      insert_event_row
          (settled_event schedule org run_id r.status r.cost_usdc
            (terminal_error r.status event_run_failed))
          (update_lease run_id (finished_lease now owner r.status) d),
    )
    else (false, d)

-- The failed result that a lost run gets, with the mark on its schedule; the one that is there
-- already is kept. The constraint is on the schedule and the run, the question asks for the org too.

abbrev pub failed_result : (now schedule org run_id : ℕ) → ErrorText → RunResult
failed_result now schedule org run_id error = record {
  schedule_id = schedule;
  org_id = org;
  run_id = run_id;
  status = run_failed;
  output_text = 0;
  cost_usdc = 0;
  error = error;
  created_at = now;
}

-- ON CONFLICT DO NOTHING, and the second SELECT: a row of another org makes `dict(None)` raise
unfoldable pub ensure_result :
    (now schedule org run_id limit : ℕ) → ErrorText → ScheduleDb → Result (RunResult × ScheduleDb)
unfolding get_scheduled_run_result find_result mark_scheduled_run_failed
ensure_result now schedule org run_id limit error d =
    elim (get_scheduled_run_result schedule org run_id d) [
      | some r ↦ ok (r, d)
      | none ↦
          if is_there (find_result schedule run_id d)
          then err runtime_error
          else if not (is_there (lookup schedule d.scheduled_runs))
          then err foreign_key_violation
          else let r = failed_result now schedule org run_id error in
            ok (
              r,
              mark_scheduled_run_failed now limit schedule
                  (record d { scheduled_run_results = r ∷ d.scheduled_run_results }),
            )
    ]

-- fail_event_dispatch; the audit row has the error on every path

unfoldable pub fail_with :
    (now schedule org run_id : ℕ)
    → ErrorText
    → RunResult × ScheduleDb
    → Option RunResult × ScheduleDb
unfolding terminal_lease
fail_with now schedule org run_id error (r, d) = (
  some r,
  insert_event_row (settled_event schedule org run_id r.status r.cost_usdc error) (
      update_lease run_id
        (terminal_lease now (terminal_status r.status) (terminal_error r.status error)) d),
)

unfoldable pub fail_event_dispatch :
    (now schedule org run_id owner limit : ℕ)
    → ErrorText
    → ScheduleDb
    → Result (Option RunResult × ScheduleDb)
unfolding is_finishable ensure_result fail_with
fail_event_dispatch now schedule org run_id owner limit error d =
    if finds_lease run_id (is_finishable owner) d
    then (ensure_result now schedule org run_id limit error d >>= λ answered.
        ok (fail_with now schedule org run_id error answered))
    else ok (none, d)

-- recover_expired_event_dispatches

unfoldable pub is_expired_lease : ℕ → ℕ × DispatchLease → Bool
unfolding is_live
is_expired_lease now (_, l) = is_live l && leb l.lease_expires_at now

-- ORDER BY lease_expires_at, run_id
abbrev pub expires_before : ℕ × DispatchLease → ℕ × DispatchLease → Bool
expires_before (i, l) (j, m) =
    ltb l.lease_expires_at m.lease_expires_at
    || (l.lease_expires_at == m.lease_expires_at && leb i j)

unfoldable pub expired_leases : ℕ → ℕ → ScheduleDb → Keyed DispatchLease
unfolding is_expired_lease
expired_leases now limit d =
    take limit (sort_by expires_before (select (is_expired_lease now) d.event_dispatch_leases))

unfoldable pub recovered_with : (now : ℕ) → ℕ × DispatchLease → RunResult × ScheduleDb → ScheduleDb
unfolding terminal_lease
recovered_with now (run_id, l) (r, d) =
    insert_event_row
      (settled_event l.schedule_id l.org_id run_id r.status r.cost_usdc
        (terminal_error r.status recovery_timed_out))
      (update_lease run_id
        (terminal_lease now (terminal_status r.status) (terminal_error r.status recovery_timed_out))
        d)

unfoldable pub recover_each : (now limit : ℕ) → Keyed DispatchLease → ScheduleDb → Result ScheduleDb
unfolding ensure_result recovered_with
recover_each now limit [] d = ok d
recover_each now limit ((run_id, l) ∷ rest) d =
    ensure_result now l.schedule_id l.org_id run_id limit recovery_timed_out d >>= λ answered.
    recover_each now limit rest (recovered_with now (run_id, l) answered)

-- The number of the leases with the state, of the one transaction.
unfoldable pub recover_expired_event_dispatches :
    (now batch limit : ℕ) → ScheduleDb → Result (ℕ × ScheduleDb)
unfolding expired_leases recover_each
recover_expired_event_dispatches now batch limit d =
    let rows = expired_leases now batch d in
    recover_each now limit rows d >>= λ d'. ok (length rows, d')
