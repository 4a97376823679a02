-- ===== src/Scheduling/Handlers/Patch.antt =====
-- teardrop/routers/agent_schedules.py and agent_event_triggers.py: the two PATCH handlers. A field of a
-- body is none where the request leaves it out, and `some none` where the request has a null.
use teardrop.Common.{Bool, Option, false, if◌then◌else◌, leb, none, not, some, true, ℕ, ◌&&◌, ◌||◌}
use teardrop.Scheduling.Handlers.{
  HandlerSettings, is_valid_next, is_valid_url, owns_event_trigger, record_trigger_event,
  validate_x_sink,
}
use teardrop.Scheduling.Schedules.{get_scheduled_run}
use teardrop.Scheduling.Schedules.Update.{ScheduleChange, unless_set, update_scheduled_run}
use teardrop.Scheduling.Tables.{CallbackFormat, ScheduleDb, ScheduledRun, is_there, trigger_updated}
use teardrop.Schema.{Result, check_violation, err, ok}

pub record PatchBody : Type 0 where
  pub name : Option (Option ℕ)
  pub prompt : Option (Option ℕ)
  pub interval_seconds : Option (Option ℕ)
  pub enabled : Option (Option Bool)
  pub callback_url : Option (Option ℕ)
  pub callback_format : Option (Option CallbackFormat)
  pub next_trigger_id : Option (Option ℕ)

abbrev is_null_field : {A : Type 0} → Option (Option A) → Bool
is_null_field (some none) = true
is_null_field _ = false

abbrev value_of : {A : Type 0} → Option (Option A) → Option A
value_of (some v) = v
value_of none = none

-- A null for a NOT NULL column.
abbrev has_bad_null : PatchBody → Bool
has_bad_null b = is_null_field b.name || is_null_field b.prompt || is_null_field b.enabled

-- update_kwargs of the schedule's handler: a null format is left out
unfoldable pub schedule_change : PatchBody → ScheduleChange
schedule_change b = record {
  name = value_of b.name;
  prompt = value_of b.prompt;
  interval_seconds = b.interval_seconds;
  enabled = value_of b.enabled;
  callback_url = b.callback_url;
  callback_format = value_of b.callback_format;
  next_trigger_id = none;
}

-- update_kwargs of the trigger's handler
unfoldable pub trigger_change : PatchBody → ScheduleChange
trigger_change b = record {
  name = value_of b.name;
  prompt = value_of b.prompt;
  interval_seconds = none;
  enabled = value_of b.enabled;
  callback_url = b.callback_url;
  callback_format = none;
  next_trigger_id = b.next_trigger_id;
}

-- The UPDATE, or the exception for a null; none is the row that is not found.
unfoldable pub patch_row :
    (now id org : ℕ)
    → PatchBody
    → ScheduleChange
    → ScheduleDb
    → Result (Option ScheduledRun × ScheduleDb)
unfolding get_scheduled_run update_scheduled_run
patch_row now id org b change d =
    if has_bad_null b && is_there (get_scheduled_run id org d)
    then err check_violation
    else update_scheduled_run now id org change d

-- The sink of the schedule as it would be, if the request names its format or its URL.
unfoldable pub patched_sink : HandlerSettings → (id org : ℕ) → PatchBody → ScheduleDb → Option ℕ
unfolding get_scheduled_run validate_x_sink
patched_sink c id org b d =
    if not (is_there b.callback_format || is_there b.callback_url)
    then none
    else elim (get_scheduled_run id org d) [
      | none ↦ some 404
      | some r ↦
          validate_x_sink c org (unless_set (value_of b.callback_format) r.callback_format)
            (unless_set b.callback_url r.callback_url)
    ]

abbrev is_long_enough : HandlerSettings → Option ℕ → Bool
is_long_enough c none = true
is_long_enough c (some n) = leb c.scheduled_runs_min_interval_seconds n

-- _serialize_schedule raises for a row with no next run, after the UPDATE is made.
unfoldable pub patched_schedule :
    ScheduleDb → Result (Option ScheduledRun × ScheduleDb) → ℕ × ScheduleDb
patched_schedule d (err why) = (500, d)
patched_schedule d (ok (none, d')) = (404, d')
patched_schedule d (ok (some r, d')) = ((if is_there r.next_run_at then 200 else 500), d')

-- update_agent_schedule_endpoint
unfoldable pub patch_agent_schedule :
    HandlerSettings
    → (is_safe_url : ℕ → Bool) → (now id org : ℕ) → PatchBody
    → ScheduleDb
    → ℕ × ScheduleDb
unfolding is_valid_url patched_sink patch_row schedule_change patched_schedule
patch_agent_schedule c is_safe_url now id org b d =
    if not c.scheduled_runs_enabled
    then (404, d)
    else if not (is_long_enough c (value_of b.interval_seconds))
    then (422, d)
    else if not (is_valid_url is_safe_url (value_of b.callback_url))
    then (422, d)
    else elim (patched_sink c id org b d) [
      | some code ↦ (code, d)
      | none ↦ patched_schedule d (patch_row now id org b (schedule_change b) d)
    ]

unfoldable pub patched_trigger :
    (id org : ℕ) → ScheduleDb → Result (Option ScheduledRun × ScheduleDb) → ℕ × ScheduleDb
patched_trigger id org d (err why) = (500, d)
patched_trigger id org d (ok (none, d')) = (404, d')
patched_trigger id org d (ok (some r, d')) = (200, record_trigger_event id org trigger_updated d')

-- update_event_trigger_endpoint
unfoldable pub patch_event_trigger :
    HandlerSettings
    → (is_safe_url : ℕ → Bool) → (now id org : ℕ) → PatchBody
    → ScheduleDb
    → ℕ × ScheduleDb
unfolding owns_event_trigger is_valid_url is_valid_next patch_row trigger_change patched_trigger
patch_event_trigger c is_safe_url now id org b d =
    if not c.event_triggers_enabled
    then (404, d)
    else if not (owns_event_trigger id org d)
    then (404, d)
    else if not (is_valid_url is_safe_url (value_of b.callback_url))
    then (422, d)
    else if not (is_valid_next org (value_of b.next_trigger_id) d)
    then (422, d)
    else patched_trigger id org d (patch_row now id org b (trigger_change b) d)
