-- ===== src/Scheduling/Tables.antt =====
-- The tables that scheduling/crud.py writes (migrations 102, 106 and 129). Ids and texts are only
-- compared or stored, so they are numbers; times are microseconds.
use teardrop.Common.{
  Bool, Keyed, List, Option, false, if◌then◌else◌, none, some, true, update_key, ℕ, ◌==◌, ◌∷◌,
}
use teardrop.Credit.{Refusal}

pub data ScheduleKind : Type 0 where
  interval_kind event_kind : ScheduleKind

pub data CallbackFormat : Type 0 where
  json_format text_format x_format : CallbackFormat

-- `scheduled_runs`; an event trigger has no interval and no next run.
pub record ScheduledRun : Type 0 where
  pub org_id : ℕ
  pub user_id : ℕ
  pub name : ℕ
  pub prompt : ℕ
  pub schedule_kind : ScheduleKind
  pub interval_seconds : Option ℕ
  pub enabled : Bool
  pub callback_url : Option ℕ
  pub callback_format : CallbackFormat
  pub trigger_token : Option ℕ
  pub secret_hash : Option ℕ
  pub next_trigger_id : Option ℕ
  pub next_run_at : Option ℕ
  pub last_run_at : Option ℕ
  pub consecutive_failures : ℕ
  pub created_at : ℕ
  pub updated_at : ℕ

pub data RunStatus : Type 0 where
  run_completed run_failed run_timeout run_skipped : RunStatus

-- The texts of the error columns, by the place that writes them; `no_error` is ''.
pub data ErrorText : Type 0 where
  no_error event_run_failed recovery_timed_out capacity_exhausted : ErrorText
  error_text : ℕ → ErrorText
  billing_refused : Refusal → ErrorText
  hop_limit_reached target_unavailable chain_saturated chain_reserved chain_failed : ErrorText

-- `scheduled_run_results`; the cost of a run is never negative.
pub record RunResult : Type 0 where
  pub schedule_id : ℕ
  pub org_id : ℕ
  pub run_id : ℕ
  pub status : RunStatus
  pub output_text : ℕ
  pub cost_usdc : ℕ
  pub error : ErrorText
  pub created_at : ℕ

-- An idempotency key: `run_key` is a text `run:…`, `chain_key` a text `chain:…`.
pub data IdempotencyKey : Type 0 where
  text_key run_key chain_key : ℕ → IdempotencyKey

-- `event_dispatch_keys`
pub record DispatchKey : Type 0 where
  pub schedule_id : ℕ
  pub idempotency_key : IdempotencyKey
  pub run_id : ℕ
  pub chain_id : ℕ
  pub hop_index : ℕ
  pub created_at : ℕ

pub data LeaseStatus : Type 0 where
  lease_reserved lease_running lease_completed lease_failed : LeaseStatus

-- `event_dispatch_leases`, keyed by the run's id; its key on `event_dispatch_keys` is given.
pub record DispatchLease : Type 0 where
  pub schedule_id : ℕ
  pub org_id : ℕ
  pub idempotency_key : IdempotencyKey
  pub owner_id : ℕ
  pub status : LeaseStatus
  pub lease_expires_at : ℕ
  pub started_at : Option ℕ
  pub finished_at : Option ℕ
  pub last_error : ErrorText
  pub updated_at : ℕ

pub data EventType : Type 0 where
  trigger_created trigger_updated trigger_deleted secret_rotated secret_rejected : EventType
  dispatch_accepted dispatch_duplicate run_settled chain_dispatch_skipped : EventType

-- `event_trigger_events`; an empty run id or status is none.
pub record TriggerEvent : Type 0 where
  pub schedule_id : ℕ
  pub org_id : ℕ
  pub run_id : Option ℕ
  pub event_type : EventType
  pub status : Option RunStatus
  pub cost_usdc : ℕ
  pub error : ErrorText

-- `x_broadcasts`, keyed by the run's id; an empty tweet id is none.
pub record XBroadcast : Type 0 where
  pub schedule_id : ℕ
  pub org_id : ℕ
  pub tweet_id : Option ℕ

pub record ScheduleDb : Type 0 where
  pub scheduled_runs : Keyed ScheduledRun
  pub scheduled_run_results : List RunResult
  pub event_dispatch_keys : List DispatchKey
  pub event_dispatch_leases : Keyed DispatchLease
  pub event_trigger_events : List TriggerEvent
  pub x_broadcasts : Keyed XBroadcast

abbrev pub key_eq : IdempotencyKey → IdempotencyKey → Bool
key_eq (text_key a) (text_key b) = a == b
key_eq (run_key a) (run_key b) = a == b
key_eq (chain_key a) (chain_key b) = a == b
key_eq _ _ = false

abbrev pub is_completed_run : RunStatus → Bool
is_completed_run run_completed = true
is_completed_run _ = false

-- status IN ('reserved', 'running')
abbrev pub is_live_status : LeaseStatus → Bool
is_live_status lease_reserved = true
is_live_status lease_running = true
is_live_status _ = false

abbrev pub is_reserved_status : LeaseStatus → Bool
is_reserved_status lease_reserved = true
is_reserved_status _ = false

abbrev pub is_running_status : LeaseStatus → Bool
is_running_status lease_running = true
is_running_status _ = false

abbrev pub is_interval : ScheduleKind → Bool
is_interval interval_kind = true
is_interval event_kind = false

abbrev pub is_there : {A : Type 0} → Option A → Bool
is_there none = false
is_there (some x) = true

-- "completed" if status == "completed" else "failed"
abbrev pub terminal_status : RunStatus → LeaseStatus
terminal_status status = if is_completed_run status then lease_completed else lease_failed

-- "" if the terminal status is "completed", else the error
abbrev pub terminal_error : RunStatus → ErrorText → ErrorText
terminal_error status error = if is_completed_run status then no_error else error

-- insert_event_row
abbrev pub insert_event_row : TriggerEvent → ScheduleDb → ScheduleDb
insert_event_row row d = record d { event_trigger_events = row ∷ d.event_trigger_events }

-- UPDATE event_dispatch_leases SET f WHERE run_id = $1 …
abbrev pub update_lease : ℕ → (DispatchLease → DispatchLease) → ScheduleDb → ScheduleDb
update_lease run_id f d = record d {
  event_dispatch_leases = update_key run_id f d.event_dispatch_leases;
}

-- UPDATE scheduled_runs SET f WHERE id = $1 …
abbrev pub update_schedule : ℕ → (ScheduledRun → ScheduledRun) → ScheduleDb → ScheduleDb
update_schedule id f d = record d { scheduled_runs = update_key id f d.scheduled_runs }
