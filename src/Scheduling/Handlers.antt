-- ===== src/Scheduling/Handlers.antt =====
-- teardrop/routers/agent_schedules.py and agent_event_triggers.py: the handlers that create, change and
-- delete schedules and event triggers, for the org of the token. A handler gives the status of its
-- response; `is_safe_url` is the test of the scheme and of async_validate_url. The statements of one
-- handler are made with no write between them.
pub mod Patch
pub mod KeptRows
pub mod Isolation
use teardrop.Common.{Bool, Option, false, if◌then◌else◌, leb, ltb, none, not, some, true, ℕ, ◌==◌}
use teardrop.Scheduling.Schedules.{
  count_scheduled_runs, create_event_trigger, create_scheduled_run, get_scheduled_run,
  queue_scheduled_run_now, rotate_event_trigger_secret,
}
use teardrop.Scheduling.Schedules.Update.{delete_scheduled_run}
use teardrop.Scheduling.Tables.{
  CallbackFormat, EventType, ScheduleDb, ScheduledRun, event_kind, insert_event_row, interval_kind,
  is_interval, is_there, json_format, no_error, secret_rotated, trigger_created, trigger_deleted,
  x_format,
}
use teardrop.Schema.{Result, err, ok}

pub record HandlerSettings : Type 0 where
  pub scheduled_runs_enabled : Bool
  pub scheduled_runs_max_per_org : ℕ
  pub scheduled_runs_min_interval_seconds : ℕ
  pub event_triggers_enabled : Bool
  pub event_triggers_max_per_org : ℕ
  pub x_broadcast_enabled : Bool
  pub x_broadcast_org_id : Option ℕ

-- _validate_callback_url
unfoldable pub is_valid_url : (is_safe_url : ℕ → Bool) → Option ℕ → Bool
is_valid_url is_safe_url none = true
is_valid_url is_safe_url (some url) = is_safe_url url

abbrev is_broadcast_org : HandlerSettings → ℕ → Bool
is_broadcast_org c org = elim c.x_broadcast_org_id [
  | none ↦ false
  | some owner_org ↦ org == owner_org
]

-- _validate_x_sink: the status of its error
unfoldable pub validate_x_sink : HandlerSettings → ℕ → CallbackFormat → Option ℕ → Option ℕ
validate_x_sink c org x_format url =
    if not c.x_broadcast_enabled
    then some 404
    else if not (is_broadcast_org c org)
    then some 403
    else if is_there url
    then some 422
    else none
validate_x_sink c org _ url = none

-- _normalize_first_run_at
unfoldable pub is_valid_first_run : ℕ → Option ℕ → Bool
is_valid_first_run now none = true
is_valid_first_run now (some at) = ltb now at

-- The response after a write that returned, or 500; _serialize_schedule needs the next run's time.
abbrev pub after_insert : ℕ → ScheduleDb → Result (ScheduledRun × ScheduleDb) → ℕ × ScheduleDb
after_insert code d (err why) = (500, d)
after_insert code d (ok written) = (code, written.1)

unfoldable pub create_agent_schedule :
    HandlerSettings
    → (is_safe_url : ℕ → Bool) → (now new_id org user name prompt interval : ℕ)
    → (callback_url : Option ℕ) → CallbackFormat
    → (first_run_at : Option ℕ) → ScheduleDb
    → ℕ × ScheduleDb
unfolding is_valid_first_run is_valid_url validate_x_sink count_scheduled_runs create_scheduled_run
create_agent_schedule c is_safe_url now new_id org user name prompt interval callback_url sink
      first_run_at d =
    if not c.scheduled_runs_enabled
    then (404, d)
    else if ltb interval c.scheduled_runs_min_interval_seconds
    then (422, d)
    else if not (is_valid_first_run now first_run_at)
    then (422, d)
    else if not (is_valid_url is_safe_url callback_url)
    then (422, d)
    else elim (validate_x_sink c org sink callback_url) [
      | some code ↦ (code, d)
      | none ↦
          if leb c.scheduled_runs_max_per_org (count_scheduled_runs org interval_kind d)
          then (422, d)
          else after_insert 201 d (
              create_scheduled_run now new_id org user name prompt interval callback_url sink
                first_run_at d)
    ]

unfoldable pub run_agent_schedule_now :
    HandlerSettings → (now id org : ℕ) → ScheduleDb → ℕ × ScheduleDb
unfolding get_scheduled_run queue_scheduled_run_now
run_agent_schedule_now c now id org d =
    if not c.scheduled_runs_enabled then (404, d) else elim (get_scheduled_run id org d) [
      | none ↦ (404, d)
      | some r ↦
          if not (is_interval r.schedule_kind)
          then (404, d)
          else if not r.enabled
          then (409, d)
          else (202, queue_scheduled_run_now now id org d)
    ]

-- delete_agent_schedule_endpoint
unfoldable pub delete_agent_schedule : HandlerSettings → (id org : ℕ) → ScheduleDb → ℕ × ScheduleDb
unfolding delete_scheduled_run
delete_agent_schedule c id org d =
    if not c.scheduled_runs_enabled
    then (404, d)
    else let deleted = delete_scheduled_run id org d in
      if deleted.0 then (200, deleted.1) else (404, d)

-- The handlers of the event triggers record what they did.
abbrev pub record_trigger_event : ℕ → ℕ → EventType → ScheduleDb → ScheduleDb
record_trigger_event id org event_type d =
    insert_event_row
      (record {
        schedule_id = id;
        org_id = org;
        run_id = none;
        event_type = event_type;
        status = none;
        cost_usdc = 0;
        error = no_error;
      })
      d

-- _get_owned_event_trigger
unfoldable pub owns_event_trigger : (id org : ℕ) → ScheduleDb → Bool
unfolding get_scheduled_run
owns_event_trigger id org d = elim (get_scheduled_run id org d) [
  | none ↦ false
  | some r ↦ not (is_interval r.schedule_kind)
]

-- _validate_next_trigger
unfoldable pub is_valid_next : ℕ → Option ℕ → ScheduleDb → Bool
unfolding owns_event_trigger
is_valid_next org none d = true
is_valid_next org (some id) d = owns_event_trigger id org d

abbrev pub after_trigger_insert :
    ℕ → ℕ → ScheduleDb → Result (ScheduledRun × ScheduleDb) → ℕ × ScheduleDb
after_trigger_insert new_id org d (err why) = (500, d)
after_trigger_insert new_id org d (ok written) =
    (201, record_trigger_event new_id org trigger_created written.1)

-- create_event_trigger_endpoint; `token` and `hash` are of the secrets that are drawn
unfoldable pub create_event_trigger_for :
    HandlerSettings
    → (is_safe_url : ℕ → Bool) → (now new_id org user name prompt : ℕ) → (callback_url : Option ℕ)
    → (token hash : ℕ) → (next_trigger : Option ℕ) → ScheduleDb
    → ℕ × ScheduleDb
unfolding is_valid_url is_valid_next count_scheduled_runs create_event_trigger
create_event_trigger_for c is_safe_url now new_id org user name prompt callback_url token hash
      next_trigger d =
    if not c.event_triggers_enabled
    then (404, d)
    else if not (is_valid_url is_safe_url callback_url)
    then (422, d)
    else if not (is_valid_next org next_trigger d)
    then (422, d)
    else if leb c.event_triggers_max_per_org (count_scheduled_runs org event_kind d)
    then (422, d)
    else after_trigger_insert new_id org d (
        create_event_trigger now new_id org user name prompt callback_url token hash json_format
          next_trigger d)

-- delete_event_trigger_endpoint
unfoldable pub delete_event_trigger : HandlerSettings → (id org : ℕ) → ScheduleDb → ℕ × ScheduleDb
unfolding owns_event_trigger delete_scheduled_run
delete_event_trigger c id org d =
    if not c.event_triggers_enabled
    then (404, d)
    else if not (owns_event_trigger id org d)
    then (404, d)
    else let deleted = delete_scheduled_run id org d in
      if deleted.0 then (200, record_trigger_event id org trigger_deleted deleted.1) else (404, d)

-- rotate_event_trigger_secret_endpoint
unfoldable pub rotate_secret : HandlerSettings → (now id org hash : ℕ) → ScheduleDb → ℕ × ScheduleDb
unfolding owns_event_trigger rotate_event_trigger_secret
rotate_secret c now id org hash d =
    if not c.event_triggers_enabled
    then (404, d)
    else if not (owns_event_trigger id org d)
    then (404, d)
    else let rotation = rotate_event_trigger_secret now id org hash d in
      if rotation.0 then (200, record_trigger_event id org secret_rotated rotation.1) else (404, d)
