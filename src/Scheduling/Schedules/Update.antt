-- ===== src/Scheduling/Schedules/Update.antt =====
-- scheduling/crud.py: update_scheduled_run and delete_scheduled_run.
use mathlib.Core.Option
use teardrop.Common.{
  Bool, Keyed, Option, [], false, if◌then◌else◌, none, not, remove, select, some, true, ℕ, ◌&&◌,
  ◌==◌, ◌||◌, ◌∷◌,
}
use teardrop.Scheduling.Schedules.{
  get_scheduled_run, schedule_check, seconds_after, target_is_there,
}
use teardrop.Scheduling.Tables.{
  CallbackFormat, ScheduleDb, ScheduledRun, is_interval, is_there, update_schedule,
}
use teardrop.Schema.{Result, check_violation, err, foreign_key_violation, ok}

-- The arguments; none is `_UNSET`. The handlers pass on a null interval as well.
pub record ScheduleChange : Type 0 where
  pub name : Option ℕ
  pub prompt : Option ℕ
  pub interval_seconds : Option (Option ℕ)
  pub enabled : Option Bool
  pub callback_url : Option (Option ℕ)
  pub callback_format : Option CallbackFormat
  pub next_trigger_id : Option (Option ℕ)

abbrev pub unless_set : {A : Type 0} → Option A → A → A
unless_set none before = before
unless_set (some after) before = after

-- `next_run_at`: from a new interval, or from the row's when the schedule is enabled again
unfoldable pub changed_next_run : ℕ → ScheduleChange → ScheduledRun → Option ℕ
changed_next_run now c r = elim c.interval_seconds [
  | some interval ↦ Option.map (seconds_after now) interval
  | none ↦
      if unless_set c.enabled false && is_interval r.schedule_kind
      then Option.map (seconds_after now) r.interval_seconds
      else r.next_run_at
]

unfoldable pub changed_schedule : ℕ → ScheduleChange → ScheduledRun → ScheduledRun
unfolding changed_next_run
changed_schedule now c r = record r {
  name = unless_set c.name r.name;
  prompt = unless_set c.prompt r.prompt;
  interval_seconds = unless_set c.interval_seconds r.interval_seconds;
  enabled = unless_set c.enabled r.enabled;
  callback_url = unless_set c.callback_url r.callback_url;
  callback_format = unless_set c.callback_format r.callback_format;
  next_trigger_id = unless_set c.next_trigger_id r.next_trigger_id;
  next_run_at = changed_next_run now c r;
  updated_at = now;
}

abbrev pub is_empty_change : ScheduleChange → Bool
is_empty_change c = not (
    is_there c.name
    || is_there c.prompt
    || is_there c.interval_seconds
    || is_there c.enabled
    || is_there c.callback_url
    || is_there c.callback_format
    || is_there c.next_trigger_id)

unfoldable pub update_scheduled_run :
    ℕ → ℕ → ℕ → ScheduleChange → ScheduleDb → Result (Option ScheduledRun × ScheduleDb)
unfolding get_scheduled_run changed_schedule schedule_check target_is_there
update_scheduled_run now id org c d = elim (get_scheduled_run id org d) [
  | none ↦ ok (none, d)
  | some r ↦
      if is_empty_change c
      then ok (some r, d)
      else let r' = changed_schedule now c r in
        if not (schedule_check r')
        then err check_violation
        else if not (target_is_there r'.next_trigger_id d)
        then err foreign_key_violation
        else ok (some r', update_schedule id (λ _. r') d)
]

-- ON DELETE SET NULL
abbrev pub without_target : ℕ → ScheduledRun → ScheduledRun
without_target id r = elim r.next_trigger_id [
  | none ↦ r
  | some target ↦ if target == id then record r { next_trigger_id = none } else r
]

abbrev pub clear_target : ℕ → Keyed ScheduledRun → Keyed ScheduledRun
clear_target id [] = []
clear_target id ((j, r) ∷ t) = (j, without_target id r) ∷ clear_target id t

-- The rows go with the results, the keys and the leases that refer to them (ON DELETE CASCADE).
unfoldable pub delete_scheduled_run : ℕ → ℕ → ScheduleDb → Bool × ScheduleDb
unfolding get_scheduled_run
delete_scheduled_run id org d = elim (get_scheduled_run id org d) [
  | none ↦ (false, d)
  | some _ ↦ (
    true,
    record d {
      scheduled_runs = clear_target id (remove id d.scheduled_runs);
      scheduled_run_results = select (λ r. not (r.schedule_id == id)) d.scheduled_run_results;
      event_dispatch_keys = select (λ k. not (k.schedule_id == id)) d.event_dispatch_keys;
      event_dispatch_leases = select (λ l. not (l.1.schedule_id == id)) d.event_dispatch_leases;
    },
  )
]
