-- ===== src/Scheduling/Events/Background.antt =====
-- teardrop/routers/agent_event_triggers.py: the run in the background (_run_event_in_background) and the
-- next hop of its chain (_dispatch_chain_child). The heartbeat that renews the lease is a step of its
-- own.
use teardrop.Common.{Bool, Option, if◌then◌else◌, ltb, none, not, some, ℕ, ◌&&◌, ◌+◌, ◌==◌}
use teardrop.Scheduling.Dispatch.{
  LeaseOutcome, lease_accepted, lease_duplicate, lease_saturated, reserve_event_dispatch_lease,
  start_event_dispatch_lease,
}
use teardrop.Scheduling.Dispatch.Settle.{fail_event_dispatch, finish_event_dispatch_lease}
use teardrop.Scheduling.Events.{
  EventSettings, EventState, SpawnedRun, event_reservation, lease_seconds_of, put_tables,
  record_event_trigger_event, spawn_event_run, tables_of,
}
use teardrop.Scheduling.Runner.{Attempt, run_and_record}
use teardrop.Scheduling.Schedules.{get_scheduled_run}
use teardrop.Scheduling.Tables.{
  ErrorText, RunResult, ScheduleDb, ScheduledRun, chain_dispatch_skipped, chain_failed, chain_key,
  chain_reserved, chain_saturated, event_run_failed, hop_limit_reached, is_completed_run,
  is_interval, target_unavailable,
}
use teardrop.Schema.{Db, Result, err, ok}

-- What a hop meets: `child_run_id` is the uuid4 that is drawn.

-- The reasons that end a chain.
unfoldable pub skip_chain : (schedule org run_id : ℕ) → ErrorText → EventState → EventState
skip_chain schedule org run_id reason st =
    record_event_trigger_event schedule org chain_dispatch_skipped (some run_id) reason st

-- child.schedule_kind == "event" and child.enabled, of the same org
unfoldable pub is_chain_target : ℕ → ScheduledRun → Bool
is_chain_target org child =
    child.org_id == org && (not (is_interval child.schedule_kind) && child.enabled)

unfoldable pub answer_hop :
    (schedule org child : ℕ)
    → RunResult
    → (chain hop : ℕ) → Result (LeaseOutcome × ScheduleDb)
    → EventState
    → EventState
unfolding skip_chain
answer_hop schedule org child r chain hop (err _) st =
    skip_chain schedule org r.run_id chain_failed st
answer_hop schedule org child r chain hop (ok (lease_saturated _, d)) st =
    skip_chain schedule org r.run_id chain_saturated (put_tables st d)
answer_hop schedule org child r chain hop (ok (lease_duplicate _, d)) st =
    skip_chain schedule org r.run_id chain_reserved (put_tables st d)
answer_hop schedule org child r chain hop (ok (lease_accepted run_id, d)) st =
    spawn_event_run
      (record { schedule_id = child; run_id = run_id; chain_id = chain; hop_index = hop })
      (put_tables st d)

-- Within the hop limit.
unfoldable pub dispatch_hop :
    EventSettings
    → (now child_run_id schedule org child : ℕ) → RunResult
    → (chain hop : ℕ) → EventState
    → EventState
unfolding is_chain_target get_scheduled_run answer_hop reserve_event_dispatch_lease skip_chain
dispatch_hop c now child_run_id schedule org child r chain hop st =
    elim (get_scheduled_run child org (tables_of st)) [
      | none ↦ skip_chain schedule org r.run_id target_unavailable st
      | some target ↦
          if not (is_chain_target org target)
          then skip_chain schedule org r.run_id target_unavailable st
          else answer_hop schedule org child r chain hop
              (reserve_event_dispatch_lease now
                (event_reservation c child org (chain_key r.run_id) child_run_id chain hop)
                (tables_of st))
              st
    ]

-- `schedule.next_trigger_id is None`, and the hop limit.
unfoldable pub dispatch_next :
    EventSettings
    → (now child_run_id schedule org : ℕ) → Option ℕ
    → RunResult
    → (chain hop : ℕ) → EventState
    → EventState
unfolding dispatch_hop skip_chain
dispatch_next c now child_run_id schedule org none r chain hop st = st
dispatch_next c now child_run_id schedule org (some child) r chain hop st =
    if ltb c.event_chain_max_hops (hop + 1)
    then skip_chain schedule org r.run_id hop_limit_reached st
    else dispatch_hop c now child_run_id schedule org child r chain (hop + 1) st

unfoldable pub dispatch_chain_child :
    EventSettings
    → (now child_run_id schedule : ℕ) → ScheduledRun
    → RunResult
    → (chain hop : ℕ) → EventState
    → EventState
unfolding dispatch_next
dispatch_chain_child c now child_run_id schedule row r chain hop st =
    if not (is_completed_run r.status)
    then st
    else dispatch_next c now child_run_id schedule row.org_id row.next_trigger_id r chain hop st

-- _run_event_in_background

-- fail_event_dispatch of this worker; an exception in it leaves the state
unfoldable pub fail_run : EventSettings → (now schedule org run_id : ℕ) → EventState → EventState
unfolding fail_event_dispatch
fail_run c now schedule org run_id st =
    elim (fail_event_dispatch now schedule org run_id c.worker_id
      c.runner.scheduled_runs_max_consecutive_failures event_run_failed (tables_of st)) [
        | err _ ↦ st
        | ok answered ↦ put_tables st answered.1
      ]

-- finish_event_dispatch_lease, and the next hop if this worker has finished it
unfoldable pub finish_run :
    EventSettings
    → (now child_run_id : ℕ) → SpawnedRun
    → ScheduledRun
    → RunResult
    → EventState
    → EventState
unfolding finish_event_dispatch_lease dispatch_chain_child
finish_run c now child_run_id s row r st =
    let finished =
      finish_event_dispatch_lease now s.schedule_id row.org_id s.run_id c.worker_id r
        (tables_of st) in
    if finished.0
    then dispatch_chain_child c now child_run_id s.schedule_id row r s.chain_id s.hop_index
        (put_tables st finished.1)
    else put_tables st finished.1

-- From the start of the lease on. `start`, `now` and `done` are the times of the three transactions.
unfoldable pub run_event_in_background :
    EventSettings
    → (post_text : ℕ → Option ℕ) → (run_price : Option ℕ) → (start now done child_run_id : ℕ)
    → SpawnedRun
    → ScheduledRun
    → Attempt
    → Db
    → EventState
    → EventState
unfolding start_event_dispatch_lease fail_run run_and_record finish_run
run_event_in_background c post_text run_price start now done child_run_id s row a db st =
    let started =
      start_event_dispatch_lease start s.run_id c.worker_id (lease_seconds_of c) (tables_of st) in
    let st1 = put_tables st started.1 in
    if not started.0
    then fail_run c start s.schedule_id row.org_id s.run_id st1
    else elim (run_and_record c.runner post_text a.tweet a.is_byok run_price now s.schedule_id
        s.run_id row a.agent db st1.runner_state) [
          | err _ ↦ fail_run c done s.schedule_id row.org_id s.run_id st1
          | ok answered ↦
              finish_run c done child_run_id s row answered.0
                (record st1 { runner_state = answered.1 })
        ]
