-- ===== src/Scheduling/Runner.antt =====
-- scheduling/runner.py: one run of a schedule, from the credit check to its result, its mark and its
-- publication. `AgentRun` is what run_agent_once gives; the text of a post is made by `post_text`
-- (_x_post_text), and `tweet` is what the X API answers. The callback's POST and the ingest of the
-- predictions, whose exceptions are caught, change no table of scheduling.
pub mod Marked
pub mod Outcome
pub mod PostOnce
use teardrop.Common.{
  Bool, Keyed, Option, [], false, if◌then◌else◌, max, none, some, true, ℕ, ◌==◌, ◌∷◌,
}
use teardrop.Credit.{Verdict, refused, verified, verify_credit}
use teardrop.Delegation.Budget.{get_byok_platform_fee}
use teardrop.Scheduling.Broadcast.{RunnerSettings, RunnerState, publish_x_broadcast, with_tables}
use teardrop.Scheduling.Claim.{claim_due_schedules}
use teardrop.Scheduling.Dispatch.Settle.{record_scheduled_run_result}
use teardrop.Scheduling.Marks.{
  mark_scheduled_run_failed, mark_scheduled_run_skipped, mark_scheduled_run_succeeded,
}
use teardrop.Scheduling.Schedules.{requeue_scheduled_run_after_capacity}
use teardrop.Scheduling.Tables.{
  CallbackFormat, ErrorText, RunResult, RunStatus, ScheduleDb, ScheduledRun, billing_refused,
  capacity_exhausted, error_text, is_completed_run, no_error, run_completed, run_failed,
  run_skipped, run_timeout, x_format,
}
use teardrop.Schema.{Db, Result, err, ok, runtime_error, ◌>>=◌}

-- The states in which an agent's run ends.
pub data TaskState : Type 0 where
  agent_completed agent_failed agent_timed_out : TaskState

abbrev pub run_status : TaskState → RunStatus
run_status agent_completed = run_completed
run_status agent_failed = run_failed
run_status agent_timed_out = run_timeout

-- AgentRunCapacityError, another exception, or the state, the output, the cost and the error.
pub data AgentRun : Type 0 where
  capacity_refused agent_raised : AgentRun
  agent_returned : TaskState → ℕ → ℕ → ℕ → AgentRun

-- _run_and_record

unfoldable pub run_min_required : RunnerSettings → Bool → Option ℕ → ℕ
unfolding get_byok_platform_fee
run_min_required c is_byok run_price =
    let default_min : ℕ = elim run_price [ none ↦ 0 | some price ↦ price ] in
    if is_byok
    then get_byok_platform_fee c.billing is_byok
    else max default_min c.credit_min_run_reserve_usdc

abbrev text_error : ℕ → ErrorText
text_error n = if n == 0 then no_error else error_text n

-- result.error or (result.output_text if result.task_state != "completed" else "")
abbrev returned_error : RunStatus → ℕ → ℕ → ErrorText
returned_error status output error =
    if error == 0
    then (if is_completed_run status then no_error else text_error output)
    else error_text error

abbrev pub skipped_result : (now schedule org run_id : ℕ) → ErrorText → RunResult
skipped_result now schedule org run_id error = record {
  schedule_id = schedule;
  org_id = org;
  run_id = run_id;
  status = run_skipped;
  output_text = 0;
  cost_usdc = 0;
  error = error;
  created_at = now;
}

abbrev pub returned_result :
    (now schedule run_id : ℕ) → ScheduledRun → RunStatus → (output cost error : ℕ) → RunResult
returned_result now schedule run_id row status output cost error = record {
  schedule_id = schedule;
  org_id = row.org_id;
  run_id = run_id;
  status = status;
  output_text = output;
  cost_usdc = cost;
  error = returned_error status output error;
  created_at = now;
}

-- The mark after a run that was made.
unfoldable pub mark_run : ℕ → ℕ → ℕ → RunStatus → ScheduleDb → ScheduleDb
unfolding mark_scheduled_run_succeeded mark_scheduled_run_failed
mark_run now limit schedule status d =
    if is_completed_run status
    then mark_scheduled_run_succeeded now schedule d
    else mark_scheduled_run_failed now limit schedule d

abbrev pub is_x_format : CallbackFormat → Bool
is_x_format x_format = true
is_x_format _ = false

-- From the admitted run on. An exception leaves nothing written here.
unfoldable pub record_agent_run :
    RunnerSettings
    → (post_text : ℕ → Option ℕ) → (tweet : Option ℕ) → (now schedule run_id : ℕ) → ScheduledRun
    → AgentRun
    → RunnerState
    → Result (RunResult × RunnerState)
unfolding record_scheduled_run_result requeue_scheduled_run_after_capacity mark_run
    publish_x_broadcast
record_agent_run c post_text tweet now schedule run_id row agent_raised st = err runtime_error
record_agent_run c post_text tweet now schedule run_id row capacity_refused st =
    record_scheduled_run_result (skipped_result now schedule row.org_id run_id capacity_exhausted)
      st.tables
    >>= λ (stored, d).
        ok (stored, with_tables st (requeue_scheduled_run_after_capacity now schedule d))
record_agent_run c post_text tweet now schedule run_id row (agent_returned state output cost error)
      st =
    record_scheduled_run_result
      (returned_result now schedule run_id row (run_status state) output cost error) st.tables
    >>= λ (stored, d).
        let marked =
          with_tables st (
            mark_run now c.scheduled_runs_max_consecutive_failures schedule (run_status state) d) in
        ok (
          stored,
          if is_x_format row.callback_format
              then publish_x_broadcast c post_text tweet schedule row.org_id stored marked
              else marked,
        )

-- `if not billing.verified`, and what follows.
unfoldable pub run_verdict :
    RunnerSettings
    → (post_text : ℕ → Option ℕ) → (tweet : Option ℕ) → (now schedule run_id : ℕ) → ScheduledRun
    → AgentRun
    → Verdict
    → RunnerState
    → Result (RunResult × RunnerState)
unfolding record_agent_run record_scheduled_run_result mark_scheduled_run_skipped
run_verdict c post_text tweet now schedule run_id row agent (refused reason) st =
    record_scheduled_run_result
      (skipped_result now schedule row.org_id run_id (billing_refused reason)) st.tables
    >>= λ (stored, d). ok (stored, with_tables st (mark_scheduled_run_skipped now schedule d))
run_verdict c post_text tweet now schedule run_id row agent verified st =
    record_agent_run c post_text tweet now schedule run_id row agent st

-- `row` is the schedule as it was claimed or looked up.
unfoldable pub run_and_record :
    RunnerSettings
    → (post_text : ℕ → Option ℕ) → (tweet : Option ℕ) → (is_byok : Bool) → (run_price : Option ℕ)
    → (now schedule run_id : ℕ) → ScheduledRun
    → AgentRun
    → Db
    → RunnerState
    → Result (RunResult × RunnerState)
unfolding run_min_required run_verdict
run_and_record c post_text tweet is_byok run_price now schedule run_id row agent db st =
    run_verdict c post_text tweet now schedule run_id row agent
      (verify_credit c.billing now row.org_id (run_min_required c is_byok run_price) none db) st

-- What one run meets outside: the id it draws, whether the org brings its own key, what the agent does
-- and what the X API answers.
pub record Attempt : Type 0 where
  pub run_id : ℕ
  pub is_byok : Bool
  pub agent : AgentRun
  pub tweet : Option ℕ

-- _execute_isolated: an exception in one run leaves the others
unfoldable pub execute_isolated :
    RunnerSettings
    → (post_text : ℕ → Option ℕ) → (run_price : Option ℕ) → (now schedule : ℕ) → ScheduledRun
    → Attempt
    → Db
    → RunnerState
    → RunnerState
unfolding run_and_record
execute_isolated c post_text run_price now schedule row a db st =
    elim (run_and_record c post_text a.tweet a.is_byok run_price now schedule a.run_id row a.agent
      db st) [ err _ ↦ st | ok answered ↦ answered.1 ]

-- The runs of a tick end in some order; here it is the order of the claim.
unfoldable pub execute_claimed :
    RunnerSettings
    → (post_text : ℕ → Option ℕ) → (run_price : Option ℕ) → (now : ℕ) → (attempts : ℕ → Attempt)
    → Keyed ScheduledRun
    → Db
    → RunnerState
    → RunnerState
unfolding execute_isolated
execute_claimed c post_text run_price now attempts [] db st = st
execute_claimed c post_text run_price now attempts ((id, row) ∷ rest) db st =
    execute_claimed c post_text run_price now attempts rest db
      (execute_isolated c post_text run_price now id row (attempts id) db st)

abbrev claim_limit : ℕ
claim_limit = 25

unfoldable pub scheduled_runs_tick :
    RunnerSettings
    → (post_text : ℕ → Option ℕ) → (run_price : Option ℕ) → (now : ℕ) → (attempts : ℕ → Attempt)
    → Db
    → RunnerState
    → RunnerState
unfolding execute_claimed claim_due_schedules
scheduled_runs_tick c post_text run_price now attempts db st =
    let claimed = claim_due_schedules now claim_limit st.tables in
    execute_claimed c post_text run_price now attempts claimed.0 db (with_tables st claimed.1)
