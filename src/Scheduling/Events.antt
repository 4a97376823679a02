-- ===== src/Scheduling/Events.antt =====
-- teardrop/routers/agent_event_triggers.py: the inbound webhook, the run in the background and the next
-- hop of a chain. What the request brings is read before (its rate limits, its body, the lengths of both); `hash` is SHA-256, and `render` is render_event_prompt, none where the prompt is blank.
pub mod Background
pub mod Admission
pub mod Chain
pub mod Once
use teardrop.Common.{
  Bool, List, Option, false, if◌then◌else◌, none, not, some, true, ℕ, ◌+◌, ◌==◌, ◌∷◌,
}
use teardrop.Scheduling.Broadcast.{RunnerSettings, RunnerState, with_tables}
use teardrop.Scheduling.Dispatch.{
  LeaseOutcome, Reservation, get_existing_dispatch, lease_accepted, lease_duplicate,
  lease_saturated, reserve_event_dispatch_lease,
}
use teardrop.Scheduling.Schedules.{get_event_trigger_for_dispatch}
use teardrop.Scheduling.Tables.{
  ErrorText, EventType, IdempotencyKey, ScheduleDb, ScheduledRun, dispatch_duplicate,
  insert_event_row, is_there, no_error, run_key, secret_rejected,
}
use teardrop.Schema.{Result, err, ok}

pub record EventSettings : Type 0 where
  pub runner : RunnerSettings
  pub event_triggers_enabled : Bool
  pub event_triggers_max_concurrency : ℕ
  pub event_triggers_max_concurrency_per_org : ℕ
  pub event_chain_max_hops : ℕ
  pub scheduled_runs_execution_timeout_seconds : ℕ
  pub worker_id : ℕ

-- A run handed to a background task.
pub record SpawnedRun : Type 0 where
  pub schedule_id : ℕ
  pub run_id : ℕ
  pub chain_id : ℕ
  pub hop_index : ℕ

pub record EventState : Type 0 where
  pub runner_state : RunnerState
  pub spawned : List SpawnedRun

abbrev pub tables_of : EventState → ScheduleDb
tables_of st = st.runner_state.tables

abbrev pub put_tables : EventState → ScheduleDb → EventState
put_tables st d = record st { runner_state = with_tables st.runner_state d }

-- _spawn_event_run
abbrev pub spawn_event_run : SpawnedRun → EventState → EventState
spawn_event_run s st = record st { spawned = s ∷ st.spawned }

-- record_event_trigger_event
abbrev pub record_event_trigger_event :
    (schedule org : ℕ) → EventType → Option ℕ → ErrorText → EventState → EventState
record_event_trigger_event schedule org event_type run_id error st = put_tables st (
    insert_event_row
      (record {
        schedule_id = schedule;
        org_id = org;
        run_id = run_id;
        event_type = event_type;
        status = none;
        cost_usdc = 0;
        error = error;
      })
      (tables_of st))

-- dispatch_event

-- The body that was read: none where it is not a JSON object, else its own idempotency key.
pub record EventRequest : Type 0 where
  pub trigger_token : ℕ
  pub is_within_rate : Bool
  pub trigger_secret : Option ℕ
  pub is_small_enough : Bool
  pub body : Option (Option IdempotencyKey)
  pub header_key : Option IdempotencyKey
  pub is_key_short_enough : Bool

-- The answer: the status of an error, or the run's id.
pub data EventAnswer : Type 0 where
  http_error dispatch_was_accepted dispatch_was_duplicate : ℕ → EventAnswer

abbrev pub request_key : EventRequest → Option IdempotencyKey
request_key q = elim q.header_key [
  | some key ↦ some key
  | none ↦ elim q.body [ none ↦ none | some key ↦ key ]
]

abbrev pub lease_seconds_of : EventSettings → ℕ
lease_seconds_of c = c.scheduled_runs_execution_timeout_seconds + 60

abbrev pub event_reservation :
    EventSettings → (schedule org : ℕ) → IdempotencyKey → (run_id chain hop : ℕ) → Reservation
event_reservation c schedule org key run_id chain hop = record {
  schedule_id = schedule;
  org_id = org;
  idempotency_key = key;
  run_id = run_id;
  owner_id = c.worker_id;
  lease_seconds = lease_seconds_of c;
  global_limit = c.event_triggers_max_concurrency;
  org_limit = c.event_triggers_max_concurrency_per_org;
  chain_id = chain;
  hop_index = hop;
}

-- The answer to a reservation, with the state it leaves.
unfoldable pub answer_reservation :
    (schedule org : ℕ) → Result (LeaseOutcome × ScheduleDb) → EventState → EventAnswer × EventState
answer_reservation schedule org (err _) st = (http_error 500, st)
answer_reservation schedule org (ok (lease_saturated _, d)) st = (http_error 429, put_tables st d)
answer_reservation schedule org (ok (lease_duplicate run_id, d)) st = (
  dispatch_was_duplicate run_id,
  record_event_trigger_event schedule org dispatch_duplicate (some run_id) no_error
      (put_tables st d),
)
answer_reservation schedule org (ok (lease_accepted run_id, d)) st = (
  dispatch_was_accepted run_id,
  spawn_event_run
      (record { schedule_id = schedule; run_id = run_id; chain_id = run_id; hop_index = 0 })
      (put_tables st d),
)

-- idempotency_key or f"run:{run_id}"
abbrev pub reservation_key : ℕ → Option IdempotencyKey → IdempotencyKey
reservation_key run_id none = run_key run_id
reservation_key run_id (some key) = key

unfoldable pub existing_dispatch : ℕ → Option IdempotencyKey → ScheduleDb → Option ℕ
unfolding get_existing_dispatch
existing_dispatch schedule none d = none
existing_dispatch schedule (some key) d = get_existing_dispatch schedule key d

unfoldable pub reserve_event :
    EventSettings
    → (now run_id schedule : ℕ) → ScheduledRun
    → Option IdempotencyKey
    → EventState
    → EventAnswer × EventState
unfolding existing_dispatch answer_reservation reserve_event_dispatch_lease
reserve_event c now run_id schedule row key st =
    elim (existing_dispatch schedule key (tables_of st)) [
      | some existing ↦ (
        dispatch_was_duplicate existing,
        record_event_trigger_event schedule row.org_id dispatch_duplicate (some existing) no_error
            st,
      )
      | none ↦
          answer_reservation schedule row.org_id
            (reserve_event_dispatch_lease now
              (event_reservation c schedule row.org_id (reservation_key run_id key) run_id run_id 0)
              (tables_of st))
            st
    ]

-- not secret_hash or not provided or not _verify_secret(provided, secret_hash)
unfoldable pub is_secret : (hash : ℕ → ℕ) → Option ℕ → Option ℕ → Bool
is_secret hash (some provided) (some stored) = hash provided == stored
is_secret hash _ _ = false

abbrev is_object : EventRequest → Bool
is_object q = elim q.body [ none ↦ false | some _ ↦ true ]

-- From the lookup of the trigger on.
unfoldable pub dispatch_found :
    EventSettings
    → (hash : ℕ → ℕ) → (render : ℕ → EventRequest → Option ℕ) → (now run_id : ℕ) → EventRequest
    → Option (ℕ × ScheduledRun)
    → EventState
    → EventAnswer × EventState
unfolding is_secret reserve_event
dispatch_found c hash render now run_id q none st = (http_error 404, st)
dispatch_found c hash render now run_id q (some (schedule, row)) st =
    if not (is_secret hash q.trigger_secret row.secret_hash)
    then (
      http_error 401,
      record_event_trigger_event schedule row.org_id secret_rejected none no_error st,
    )
    else if not row.enabled
    then (http_error 404, st)
    else if not q.is_small_enough
    then (http_error 413, st)
    else if not (is_object q)
    then (http_error 400, st)
    else if not q.is_key_short_enough
    then (http_error 422, st)
    else if not (is_there (render row.prompt q))
    then (http_error 422, st)
    else reserve_event c now run_id schedule row (request_key q) st

-- `run_id` is the uuid4 that is drawn.
unfoldable pub dispatch_event :
    EventSettings
    → (hash : ℕ → ℕ) → (render : ℕ → EventRequest → Option ℕ) → (now run_id : ℕ) → EventRequest
    → EventState
    → EventAnswer × EventState
unfolding get_event_trigger_for_dispatch dispatch_found
dispatch_event c hash render now run_id q st =
    if not c.event_triggers_enabled
    then (http_error 404, st)
    else if not q.is_within_rate
    then (http_error 429, st)
    else dispatch_found c hash render now run_id q
        (get_event_trigger_for_dispatch q.trigger_token (tables_of st)) st
