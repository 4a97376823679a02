-- ===== src/Scheduling/Runner/Outcome.antt =====
-- What a run leaves on its schedule and among the results.
use teardrop.Common.{
  Bool, Bool-cases, Option, ap, arith, inl, inr, lookup, none, refl, some, update_key, ℕ, ◌∙◌, ◌∷◌,
  ◌≡◌,
}
use teardrop.Credit.{Verdict, refused, verified, verify_credit}
use teardrop.Scheduling.Broadcast.{RunnerSettings, RunnerState, with_tables}
use teardrop.Scheduling.Dispatch.Settle.{record_scheduled_run_result}
use teardrop.Scheduling.Marks.{mark_scheduled_run_skipped}
use teardrop.Scheduling.Runner.{
  AgentRun, agent_raised, agent_returned, capacity_refused, is_x_format, mark_run, record_agent_run,
  returned_result, run_and_record, run_min_required, run_status, run_verdict, skipped_result,
}
use teardrop.Scheduling.Runner.Marked.{
  Inserted, IsRecorded, inserted_results, mark_run-Counts, mark_run_results, marked_row,
  publish_tables, record_scheduled_run_result-Inserted,
}
use teardrop.Scheduling.Schedules.{requeue_scheduled_run_after_capacity, requeued}
use teardrop.Scheduling.Tables.{
  ErrorText, RunResult, ScheduleDb, ScheduledRun, billing_refused, capacity_exhausted, run_skipped,
  update_schedule,
}
use teardrop.Schema.{Db, OnOk, OnOk->>=, OnOk-returned, ok}

module _ (c : RunnerSettings) (post_text : ℕ → Option ℕ) (tweet : Option ℕ)
    (now schedule run_id : ℕ) (row before : ScheduledRun) (st : RunnerState)
    (found : lookup schedule st.tables.scheduled_runs ≡ some before) where
  abbrev limit : ℕ
  limit = c.scheduled_runs_max_consecutive_failures

  inserted_found :
      {r : RunResult} {d : ScheduleDb}
      → d ≡ record st.tables { scheduled_run_results = r ∷ st.tables.scheduled_run_results }
      → (f : ScheduledRun → ScheduledRun)
      → lookup schedule (update_key schedule f d.scheduled_runs) ≡ some (f before)
  inserted_found {d = d} is_d f =
      marked_row schedule f d.scheduled_runs before
        (ap (λ x. lookup schedule x.scheduled_runs) is_d ∙ found)

  -- A skipped run leaves the count and the switch as they were.
  skipped-IsRecorded :
      (error : ErrorText) (f : ScheduledRun → ScheduledRun) (stored : RunResult) (d : ScheduleDb)
      → (f before).consecutive_failures ≡ before.consecutive_failures
      → (f before).enabled ≡ before.enabled
      → Inserted (skipped_result now schedule row.org_id run_id error) st.tables (stored, d)
      → IsRecorded limit schedule run_id before st
          (stored, with_tables st (update_schedule schedule f d))
  skipped-IsRecorded error f stored d same_count same_switch (is_r, is_d, fresh) =
      let status_is : stored.status ≡ run_skipped = ap (λ x. x.status) is_r in
      (
        fresh,
        inserted_results _ st.tables stored d is_r is_d,
        ap (λ x. x.run_id) is_r,
        (f before, inserted_found is_d f, rw status_is same_count, rw status_is same_switch),
      )

  record_agent_run-IsRecorded :
      (agent : AgentRun)
      → OnOk
          (IsRecorded limit schedule run_id before st)
          (record_agent_run c post_text tweet now schedule run_id row agent st)
  unfolding record_agent_run requeue_scheduled_run_after_capacity requeued
  record_agent_run-IsRecorded agent_raised = tt
  record_agent_run-IsRecorded capacity_refused =
      let r = skipped_result now schedule row.org_id run_id capacity_exhausted in
      OnOk->>= (Inserted r st.tables) (IsRecorded limit schedule run_id before st)
        (record_scheduled_run_result r st.tables) _
        (record_scheduled_run_result-Inserted r st.tables)
        λ (stored, d) inserted.
          skipped-IsRecorded capacity_exhausted (requeued now) stored d (ground arith)
            (ground arith) inserted
  record_agent_run-IsRecorded (agent_returned state output cost error) =
      let r = returned_result now schedule run_id row (run_status state) output cost error in
      OnOk->>= (Inserted r st.tables) (IsRecorded limit schedule run_id before st)
        (record_scheduled_run_result r st.tables) _
        (record_scheduled_run_result-Inserted r st.tables)
        λ (stored, d) (is_r, is_d, fresh).
          let marked = with_tables st (mark_run now limit schedule (run_status state) d) in
          let status_is : stored.status ≡ run_status state = ap (λ x. x.status) is_r in
          let (after, found', count, switch) =
            mark_run-Counts now limit schedule state d before
              (ap (λ x. lookup schedule x.scheduled_runs) is_d ∙ found) in
          let (same_runs, same_results) =
            publish_tables c post_text tweet schedule row.org_id stored marked in
          let results =
            mark_run_results now limit schedule (run_status state) d
            ∙ inserted_results r st.tables stored d is_r is_d in
          elim (Bool-cases (is_x_format row.callback_format)) [
            | inr e ↦ rw e (
              fresh,
              results,
              ap (λ x. x.run_id) is_r,
              (after, found', rw status_is count, rw status_is switch),
            )
            | inl e ↦ rw e (
              fresh,
              same_results ∙ results,
              ap (λ x. x.run_id) is_r,
              (
                after,
                ap (lookup schedule) same_runs ∙ found',
                rw status_is count,
                rw status_is switch,
              ),
            )
          ]

  run_verdict-IsRecorded :
      (agent : AgentRun) (verdict : Verdict)
      → OnOk
          (IsRecorded limit schedule run_id before st)
          (run_verdict c post_text tweet now schedule run_id row agent verdict st)
  unfolding run_verdict mark_scheduled_run_skipped
  run_verdict-IsRecorded agent verified = record_agent_run-IsRecorded agent
  run_verdict-IsRecorded agent (refused reason) =
      let r = skipped_result now schedule row.org_id run_id (billing_refused reason) in
      OnOk->>= (Inserted r st.tables) (IsRecorded limit schedule run_id before st)
        (record_scheduled_run_result r st.tables) _
        (record_scheduled_run_result-Inserted r st.tables)
        λ (stored, d) inserted.
          skipped-IsRecorded (billing_refused reason)
            (λ x. record x { last_run_at = some now; updated_at = now }) stored d refl refl inserted

-- When a run returns, for a schedule that is in the table: the run had no result before, its result is
-- the one that is added, and the schedule's count of failures is 0 after a completed run, one more
-- after a failed run or a timeout, and the same after a skipped one; a failure disables the schedule
-- when the count reaches the limit, and nothing else changes whether it is enabled.
pub run_and_record-IsRecorded :
    (c : RunnerSettings) (post_text : ℕ → Option ℕ) (tweet : Option ℕ) (is_byok : Bool)
    (run_price : Option ℕ) (now schedule run_id : ℕ) (row before : ScheduledRun) (agent : AgentRun)
    (db : Db) (st st' : RunnerState) (r : RunResult)
    → lookup schedule st.tables.scheduled_runs ≡ some before
    → run_and_record c post_text tweet is_byok run_price now schedule run_id row agent db st
      ≡ ok (r, st')
    → IsRecorded c.scheduled_runs_max_consecutive_failures schedule run_id before st (r, st')
unfolding run_and_record
run_and_record-IsRecorded c post_text tweet is_byok run_price now schedule run_id row before agent
      db st st' r found made =
    let verdict =
      verify_credit c.billing now row.org_id (run_min_required c is_byok run_price) none db in
    OnOk-returned _ (run_verdict c post_text tweet now schedule run_id row agent verdict st) made (
      run_verdict-IsRecorded c post_text tweet now schedule run_id row before st found agent
        verdict)
