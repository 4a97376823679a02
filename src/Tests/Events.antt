-- ===== src/Tests/Events.antt =====
-- Unattended runs, the webhook and a chain on the two schedules.
use teardrop.Common.{Bool, Option, [], false, none, refl, some, true, ℕ, ◌*◌, ◌==◌, ◌∷◌, ◌≡◌, ◌≤◌}
use teardrop.Credit.{org_outstanding, verify_credit}
use teardrop.Delegation.Budget.{get_byok_platform_fee}
use teardrop.Ledger.{account, counts, effective_limit, get_daily_debit_spend, is_reversed}
use teardrop.Scheduling.Broadcast.{
  RunnerSettings, RunnerState, post_reserved, publish_x_broadcast, record_x_broadcast_tweet,
  reserve_x_broadcast, with_tweet,
}
use teardrop.Scheduling.Dispatch.{
  Reservation, find_key, get_existing_dispatch, hop_taken, insert_reservation, is_active_lease,
  is_active_of_org, is_live, lineage_check, reserve_event_dispatch_lease, reserved_lease,
}
use teardrop.Scheduling.Dispatch.Settle.{find_result, record_scheduled_run_result}
use teardrop.Scheduling.Dispatch.Steps.{no_steps}
use teardrop.Scheduling.Events.{
  EventRequest, EventSettings, EventState, answer_reservation, dispatch_event, dispatch_found,
  dispatch_was_accepted, event_reservation, existing_dispatch, is_secret, reserve_event,
}
use teardrop.Scheduling.Events.Admission.{IsDispatch, dispatch_event-IsDispatch}
use teardrop.Scheduling.Events.Background.{
  answer_hop, dispatch_chain_child, dispatch_hop, dispatch_next, is_chain_target,
}
use teardrop.Scheduling.Events.Chain.{IsNextHop, dispatch_chain_child-IsNextHop}
use teardrop.Scheduling.Events.Once.{IsRepeat, dispatch_event-once}
use teardrop.Scheduling.Handlers.{
  HandlerSettings, delete_event_trigger, is_valid_url, owns_event_trigger,
}
use teardrop.Scheduling.Handlers.Isolation.{HandlerStep-KeepsOthers, deletes_trigger}
use teardrop.Scheduling.Handlers.KeptRows.{IsKeptRow}
use teardrop.Scheduling.Handlers.Patch.{
  PatchBody, patch_agent_schedule, patch_row, patched_schedule, patched_sink, schedule_change,
}
use teardrop.Scheduling.Marks.{mark_scheduled_run_succeeded, succeeded_row}
use teardrop.Scheduling.Runner.{
  agent_completed, agent_returned, mark_run, record_agent_run, returned_result, run_and_record,
  run_min_required, run_verdict,
}
use teardrop.Scheduling.Runner.Marked.{IsRecorded}
use teardrop.Scheduling.Runner.Outcome.{run_and_record-IsRecorded}
use teardrop.Scheduling.Runner.PostOnce.{RunSteps-post_count, no_runs, post_count, runs, then_run}
use teardrop.Scheduling.Schedules.{
  get_event_trigger_for_dispatch, get_scheduled_run, schedule_check, target_is_there,
}
use teardrop.Scheduling.Schedules.Update.{
  changed_next_run, changed_schedule, delete_scheduled_run, update_scheduled_run,
}
use teardrop.Scheduling.Tables.{RunResult, ScheduleDb, run_completed, text_key, update_schedule}
use teardrop.Schema.{ok}
use teardrop.Tests.Scheduling.{daily, next_trigger, reserved_tables, schedule_db, trigger}
use teardrop.Tests.State.{db, settings}

abbrev runner_settings : RunnerSettings
runner_settings = record {
  billing = settings;
  credit_min_run_reserve_usdc = 10_000;
  scheduled_runs_max_consecutive_failures = 5;
  x_broadcast_enabled = true;
  x_broadcast_configured = true;
  x_broadcast_org_id = 1;
}

abbrev idle : RunnerState
idle = record { tables = schedule_db; posts = [] }

abbrev all_text : ℕ → Option ℕ
all_text n = some n

-- A completed run of schedule 1, by org 1 with enough credit.
abbrev finished_result : RunResult
finished_result = returned_result 2_000 1 500 daily run_completed 77 1_500 0

abbrev finished_state : RunnerState
finished_state = record {
  tables = record schedule_db {
    scheduled_runs = (1, succeeded_row 2_000 daily) ∷ (2, trigger) ∷ (3, next_trigger) ∷ [];
    scheduled_run_results = finished_result ∷ [];
    x_broadcasts = (500, record { schedule_id = 1; org_id = 1; tweet_id = some 88 }) ∷ [];
  };
  posts = 500 ∷ [];
}

run_finishes :
    run_and_record runner_settings all_text
      (some 88)
      false
      none
      2_000
      1
      500
      daily
      (agent_returned agent_completed 77 1_500 0)
      db
      idle
    ≡ ok (finished_result, finished_state)
unfolding run_and_record run_verdict run_min_required record_agent_run record_scheduled_run_result
    find_result mark_run mark_scheduled_run_succeeded publish_x_broadcast post_reserved
    reserve_x_broadcast with_tweet record_x_broadcast_tweet verify_credit account effective_limit
    org_outstanding get_daily_debit_spend get_byok_platform_fee counts is_reversed succeeded_row
run_finishes = refl

run_and_record-IsRecorded_example : IsRecorded 5 1 500 daily idle (finished_result, finished_state)
run_and_record-IsRecorded_example =
    run_and_record-IsRecorded runner_settings all_text (some 88) false none 2_000 1 500 daily daily
      (agent_returned agent_completed 77 1_500 0) db idle finished_state finished_result refl
      run_finishes

RunSteps-post_count_example : post_count 500 finished_state ≤ 1
RunSteps-post_count_example = RunSteps-post_count idle finished_state 500 refl (
    then_run no_runs (
      runs runner_settings all_text (some 88) false none 2_000 1 500 daily
        (agent_returned agent_completed 77 1_500 0) db run_finishes))

-- The webhook, with the hash n ↦ 3 * n.
abbrev event_settings : EventSettings
event_settings = record {
  runner = runner_settings;
  event_triggers_enabled = true;
  event_triggers_max_concurrency = 2;
  event_triggers_max_concurrency_per_org = 1;
  event_chain_max_hops = 3;
  scheduled_runs_execution_timeout_seconds = 240;
  worker_id = 9;
}

abbrev idle_events : EventState
idle_events = record { runner_state = idle; spawned = [] }

abbrev triple : ℕ → ℕ
triple n = n * 3

abbrev same_prompt : ℕ → EventRequest → Option ℕ
same_prompt prompt q = some prompt

abbrev webhook_request : EventRequest
webhook_request = record {
  trigger_token = 7;
  is_within_rate = true;
  trigger_secret = some 7;
  is_small_enough = true;
  body = some none;
  header_key = some (text_key 40);
  is_key_short_enough = true;
}

abbrev event_lease : Reservation
event_lease = event_reservation event_settings 2 1 (text_key 40) 100 100 0

abbrev event_tables : ScheduleDb
event_tables = record reserved_tables {
  event_dispatch_leases = (100, reserved_lease 0 event_lease) ∷ [];
}

abbrev handed_on : EventState
handed_on = record {
  runner_state = record idle { tables = event_tables };
  spawned = record { schedule_id = 2; run_id = 100; chain_id = 100; hop_index = 0 } ∷ [];
}

webhook_accepts :
    dispatch_event event_settings triple same_prompt 0 100 webhook_request idle_events
    ≡ (dispatch_was_accepted 100, handed_on)
unfolding dispatch_event dispatch_found get_event_trigger_for_dispatch is_secret reserve_event
    existing_dispatch answer_reservation reserve_event_dispatch_lease insert_reservation
    get_existing_dispatch find_key lineage_check hop_taken is_active_lease is_active_of_org is_live
webhook_accepts = refl

dispatch_event-IsDispatch_example :
    IsDispatch event_settings triple same_prompt 0 100 webhook_request idle_events
      (dispatch_event event_settings triple same_prompt 0 100 webhook_request idle_events)
dispatch_event-IsDispatch_example =
    dispatch_event-IsDispatch event_settings triple same_prompt 0 100 webhook_request idle_events

found_trigger : get_event_trigger_for_dispatch 7 schedule_db ≡ some (2, trigger)
unfolding get_event_trigger_for_dispatch
found_trigger = refl

found_again : get_event_trigger_for_dispatch 7 event_tables ≡ some (2, trigger)
unfolding get_event_trigger_for_dispatch
found_again = refl

dispatch_event-once_example :
    IsRepeat 100 handed_on
      (dispatch_event event_settings triple same_prompt 5_000 101 webhook_request handed_on)
dispatch_event-once_example =
    dispatch_event-once event_settings triple same_prompt 0 100 (λ n. n == 3) webhook_request
      idle_events handed_on handed_on 5_000 101 2 trigger trigger webhook_request (text_key 40)
      webhook_accepts no_steps refl refl refl found_trigger found_again

-- The run of trigger 2 has completed, and trigger 3 is next.
abbrev event_result : RunResult
event_result = returned_result 3_000 2 100 trigger run_completed 77 1_500 0

dispatch_chain_child-IsNextHop_example :
    IsNextHop event_settings 3_000 102 trigger 100 0 idle_events
      (dispatch_chain_child event_settings 3_000 102 2 trigger event_result 100 0 idle_events)
dispatch_chain_child-IsNextHop_example =
    dispatch_chain_child-IsNextHop event_settings 3_000 102 2 trigger event_result 100 0 idle_events

chain_goes_on :
    (dispatch_chain_child event_settings 3_000 102 2 trigger event_result 100 0 idle_events).spawned
    ≡ record { schedule_id = 3; run_id = 102; chain_id = 100; hop_index = 1 } ∷ []
unfolding dispatch_chain_child dispatch_next dispatch_hop get_scheduled_run is_chain_target
    answer_hop reserve_event_dispatch_lease insert_reservation get_existing_dispatch find_key
    lineage_check hop_taken is_active_lease is_active_of_org is_live
chain_goes_on = refl

-- The handlers, for org 2 on a schedule of org 1, and for org 1 with a null interval.
abbrev handler_settings : HandlerSettings
handler_settings = record {
  scheduled_runs_enabled = true;
  scheduled_runs_max_per_org = 10;
  scheduled_runs_min_interval_seconds = 60;
  event_triggers_enabled = true;
  event_triggers_max_per_org = 10;
  x_broadcast_enabled = true;
  x_broadcast_org_id = some 1;
}

abbrev null_interval_body : PatchBody
null_interval_body = record {
  name = none;
  prompt = none;
  interval_seconds = some none;
  enabled = none;
  callback_url = none;
  callback_format = none;
  next_trigger_id = none;
}

abbrev any_url : ℕ → Bool
any_url url = true

-- Trigger 3 is the target of trigger 2, of another org, and is deleted.
abbrev two_orgs : ScheduleDb
two_orgs = record schedule_db {
  scheduled_runs = (2, trigger) ∷ (3, record next_trigger { org_id = 2 }) ∷ [];
}

HandlerStep-KeepsOthers_example :
    IsKeptRow 2 2 trigger two_orgs (delete_event_trigger handler_settings 3 2 two_orgs).1
HandlerStep-KeepsOthers_example =
    HandlerStep-KeepsOthers 2 two_orgs (delete_event_trigger handler_settings 3 2 two_orgs).1 2
      trigger (deletes_trigger handler_settings 3 two_orgs) refl refl

delete_clears_target :
    (delete_event_trigger handler_settings 3 2 two_orgs).1.scheduled_runs
    ≡ (2, record trigger { next_trigger_id = none }) ∷ []
unfolding delete_event_trigger delete_scheduled_run get_scheduled_run owns_event_trigger
delete_clears_target = refl

-- The request fails after its UPDATE, and the schedule has no next run then.
null_interval_answer :
    patch_agent_schedule handler_settings any_url 5 1 1 null_interval_body schedule_db ≡ (
      500,
      update_schedule 1
          (λ r. record r { interval_seconds = none; next_run_at = none; updated_at = 5 })
          schedule_db,
    )
unfolding patch_agent_schedule is_valid_url patched_sink patch_row schedule_change patched_schedule
    update_scheduled_run get_scheduled_run changed_schedule changed_next_run schedule_check
    target_is_there
null_interval_answer = refl
