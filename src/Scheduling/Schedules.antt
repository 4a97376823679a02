-- ===== src/Scheduling/Schedules.antt =====
-- scheduling/crud.py: the rows of scheduled_runs, with what creates and changes
-- them. An UPDATE is one function on the row; `run_id`s are the uuid4 that the code draws.
pub mod Update
use teardrop.Common.{
  Bool, Option, count_where, exists, false, find?, if◌then◌else◌, lookup, ltb, min, none, not, some,
  true, upsert, ℕ, ◌&&◌, ◌*◌, ◌+◌, ◌==◌, ◌||◌,
}
use teardrop.Scheduling.Tables.{
  CallbackFormat, ScheduleDb, ScheduleKind, ScheduledRun, event_kind, interval_kind, is_interval,
  is_there, update_schedule, x_format,
}
use teardrop.Schema.{
  Result, check_violation, err, foreign_key_violation, ok, second_us, unique_violation,
}

-- count_scheduled_runs

abbrev kind_eq : ScheduleKind → ScheduleKind → Bool
kind_eq interval_kind interval_kind = true
kind_eq event_kind event_kind = true
kind_eq _ _ = false

unfoldable pub count_scheduled_runs : ℕ → ScheduleKind → ScheduleDb → ℕ
count_scheduled_runs org kind d =
    count_where (λ row. row.1.org_id == org && kind_eq row.1.schedule_kind kind) d.scheduled_runs

-- The constraints of the table: a positive interval, a target only for an event row, no URL with the
-- X sink, and a token and a secret for an event row.
unfoldable pub schedule_check : ScheduledRun → Bool
schedule_check r =
    elim r.interval_seconds [ none ↦ true | some n ↦ ltb 0 n ]
    && (not (is_there r.next_trigger_id) || not (is_interval r.schedule_kind))
    && elim r.callback_format [ x_format ↦ not (is_there r.callback_url) | _ ↦ true ]
    && (is_interval r.schedule_kind || (is_there r.trigger_token && is_there r.secret_hash))

abbrev pub has_token : Option ℕ → ScheduledRun → Bool
has_token none r = false
has_token (some token) r = elim r.trigger_token [
  | none ↦ false
  | some other_token ↦ other_token == token
]

-- The unique index on the tokens.
unfoldable pub token_taken : Option ℕ → ScheduleDb → Bool
token_taken token d = exists (λ row. has_token token row.1) d.scheduled_runs

-- REFERENCES scheduled_runs(id)
unfoldable pub target_is_there : Option ℕ → ScheduleDb → Bool
target_is_there none d = true
target_is_there (some id) d = is_there (lookup id d.scheduled_runs)

unfoldable pub insert_schedule : ℕ → ScheduledRun → ScheduleDb → Result (ScheduledRun × ScheduleDb)
unfolding schedule_check token_taken target_is_there
insert_schedule id r d =
    if not (schedule_check r)
    then err check_violation
    else if is_there (lookup id d.scheduled_runs) || token_taken r.trigger_token d
    then err unique_violation
    else if not (target_is_there r.next_trigger_id d)
    then err foreign_key_violation
    else ok (r, record d { scheduled_runs = upsert id r d.scheduled_runs })

abbrev pub seconds_after : ℕ → ℕ → ℕ
seconds_after now n = now + n * second_us

abbrev pub first_run : ℕ → ℕ → Option ℕ → ℕ
first_run now interval none = seconds_after now interval
first_run now interval (some at) = at

abbrev pub interval_row :
    (now org user name prompt interval : ℕ) (callback_url : Option ℕ)
    (callback_format : CallbackFormat) (first_run_at : Option ℕ)
    → ScheduledRun
interval_row now org user name prompt interval callback_url callback_format first_run_at = record {
  org_id = org;
  user_id = user;
  name = name;
  prompt = prompt;
  schedule_kind = interval_kind;
  interval_seconds = some interval;
  enabled = true;
  callback_url = callback_url;
  callback_format = callback_format;
  trigger_token = none;
  secret_hash = none;
  next_trigger_id = none;
  next_run_at = some (first_run now interval first_run_at);
  last_run_at = none;
  consecutive_failures = 0;
  created_at = now;
  updated_at = now;
}

unfoldable pub create_scheduled_run :
    (now new_id org user name prompt interval : ℕ) (callback_url : Option ℕ)
    (callback_format : CallbackFormat) (first_run_at : Option ℕ)
    → ScheduleDb
    → Result (ScheduledRun × ScheduleDb)
unfolding insert_schedule
create_scheduled_run now new_id org user name prompt interval callback_url callback_format
      first_run_at d =
    insert_schedule new_id
      (interval_row now org user name prompt interval callback_url callback_format first_run_at) d

abbrev pub event_row :
    (now org user name prompt : ℕ) (callback_url : Option ℕ) (token hash : ℕ)
    (callback_format : CallbackFormat) (next_trigger : Option ℕ)
    → ScheduledRun
event_row now org user name prompt callback_url token hash callback_format next_trigger = record {
  org_id = org;
  user_id = user;
  name = name;
  prompt = prompt;
  schedule_kind = event_kind;
  interval_seconds = none;
  enabled = true;
  callback_url = callback_url;
  callback_format = callback_format;
  trigger_token = some token;
  secret_hash = some hash;
  next_trigger_id = next_trigger;
  next_run_at = none;
  last_run_at = none;
  consecutive_failures = 0;
  created_at = now;
  updated_at = now;
}

unfoldable pub create_event_trigger :
    (now new_id org user name prompt : ℕ) (callback_url : Option ℕ) (token hash : ℕ)
    (callback_format : CallbackFormat) (next_trigger : Option ℕ)
    → ScheduleDb
    → Result (ScheduledRun × ScheduleDb)
unfolding insert_schedule
create_event_trigger now new_id org user name prompt callback_url token hash callback_format
      next_trigger d =
    insert_schedule new_id
      (event_row now org user name prompt callback_url token hash callback_format next_trigger) d

-- get_scheduled_run
unfoldable pub get_scheduled_run : ℕ → ℕ → ScheduleDb → Option ScheduledRun
get_scheduled_run id org d = elim (lookup id d.scheduled_runs) [
  | none ↦ none
  | some r ↦ if r.org_id == org then some r else none
]

-- get_event_trigger_for_dispatch, the row's id with it
unfoldable pub get_event_trigger_for_dispatch : ℕ → ScheduleDb → Option (ℕ × ScheduledRun)
get_event_trigger_for_dispatch token d =
    find? (λ row. has_token (some token) row.1 && not (is_interval row.1.schedule_kind))
      d.scheduled_runs

-- queue_scheduled_run_now

abbrev pub queued_now : ℕ → ℕ → ScheduledRun → ScheduledRun
queued_now now org r =
    if r.org_id == org && is_interval r.schedule_kind && r.enabled
    then record r { next_run_at = some now; updated_at = now }
    else r

unfoldable pub queue_scheduled_run_now : ℕ → ℕ → ℕ → ScheduleDb → ScheduleDb
queue_scheduled_run_now now id org d = update_schedule id (queued_now now org) d

-- requeue_scheduled_run_after_capacity

-- LEAST ignores a NULL
abbrev pub least : Option ℕ → ℕ → ℕ
least none t = t
least (some s) t = min s t

unfoldable pub requeued : ℕ → ScheduledRun → ScheduledRun
requeued now r =
    if is_interval r.schedule_kind && r.enabled
    then record r {
      next_run_at = some (least r.next_run_at (now + 60 * second_us));
      updated_at = now;
    }
    else r

unfoldable pub requeue_scheduled_run_after_capacity : ℕ → ℕ → ScheduleDb → ScheduleDb
unfolding requeued
requeue_scheduled_run_after_capacity now id d = update_schedule id (requeued now) d

-- rotate_event_trigger_secret
abbrev pub rotated : ℕ → ℕ → ℕ → ScheduledRun → ScheduledRun
rotated now org hash r =
    if r.org_id == org && not (is_interval r.schedule_kind)
    then record r { secret_hash = some hash; updated_at = now }
    else r

unfoldable pub rotate_event_trigger_secret : ℕ → ℕ → ℕ → ℕ → ScheduleDb → Bool × ScheduleDb
rotate_event_trigger_secret now id org hash d = (
  elim (lookup id d.scheduled_runs) [
    | none ↦ false
    | some r ↦ r.org_id == org && not (is_interval r.schedule_kind)
  ],
  update_schedule id (rotated now org hash) d,
)
