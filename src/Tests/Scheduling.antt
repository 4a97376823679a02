-- ===== src/Tests/Scheduling.antt =====
-- Two schedules, a chain of two triggers and their runs.
use teardrop.Common.{
  All, Bool, Bool-cases, [], arith, count_where, false, inl, inr, length, lookup, min, none, refl,
  some, subst, true, ℕ, ◌==◌, ◌∷◌, ◌≡◌, ◌≤◌, ◌⊎◌,
}
use teardrop.Scheduling.Claim.{claim_due_schedules, claimed_rows, due_schedules, is_due_schedule}
use teardrop.Scheduling.Claim.Disjoint.{claim_due_schedules-Disjoint, has_id}
use teardrop.Scheduling.Claim.Steps.{claims_due, no_claim_steps, then_claim_step}
use teardrop.Scheduling.Dispatch.{
  Reservation, find_key, get_existing_dispatch, hop_taken, insert_reservation, is_active_lease,
  is_active_of_org, is_live, is_startable, lease_accepted, lease_duplicate, lineage_check,
  reserve_event_dispatch_lease, reserved_key, reserved_lease, start_event_dispatch_lease,
  started_lease,
}
use teardrop.Scheduling.Dispatch.AtMostOnce.{reserve_event_dispatch_lease-once}
use teardrop.Scheduling.Dispatch.Bounds.{reserve_event_dispatch_lease-within}
use teardrop.Scheduling.Dispatch.Housed.{BelongsTo, IsFinal, IsHoused}
use teardrop.Scheduling.Dispatch.Recovery.{recover_expired_event_dispatches-finishes}
use teardrop.Scheduling.Dispatch.Retention.{
  delete_event_dispatch_keys, has_live_lease, is_deleted_key, is_old_key, old_keys,
}
use teardrop.Scheduling.Dispatch.Settle.{
  expired_leases, find_result, is_expired_lease, recover_expired_event_dispatches,
}
use teardrop.Scheduling.Dispatch.Steps.{
  LeaseSteps, deletes_schedule, expires, no_steps, starts, then_lease_step,
}
use teardrop.Scheduling.Dispatch.Terminal.{LeaseSteps-LeavesSettled}
use teardrop.Scheduling.Schedules.Update.{delete_scheduled_run}
use teardrop.Scheduling.Tables.{
  DispatchLease, ScheduleDb, ScheduledRun, TriggerEvent, dispatch_accepted, event_kind,
  interval_kind, json_format, lease_failed, no_error, text_key, x_format,
}
use teardrop.Schema.{ok}

abbrev pub daily : ScheduledRun
daily = record {
  org_id = 1;
  user_id = 5;
  name = 11;
  prompt = 12;
  schedule_kind = interval_kind;
  interval_seconds = some 60;
  enabled = true;
  callback_url = none;
  callback_format = x_format;
  trigger_token = none;
  secret_hash = none;
  next_trigger_id = none;
  next_run_at = some 1_000;
  last_run_at = none;
  consecutive_failures = 0;
  created_at = 0;
  updated_at = 0;
}

abbrev pub trigger : ScheduledRun
trigger = record daily {
  schedule_kind = event_kind;
  interval_seconds = none;
  callback_format = json_format;
  trigger_token = some 7;
  secret_hash = some 21;
  next_trigger_id = some 3;
  next_run_at = none;
}

abbrev pub next_trigger : ScheduledRun
next_trigger = record trigger { trigger_token = some 8; next_trigger_id = none }

abbrev pub schedule_db : ScheduleDb
schedule_db = record {
  scheduled_runs = (1, daily) ∷ (2, trigger) ∷ (3, next_trigger) ∷ [];
  scheduled_run_results = [];
  event_dispatch_keys = [];
  event_dispatch_leases = [];
  event_trigger_events = [];
  x_broadcasts = [];
}

-- A run of trigger 2 for the key 40, in a cluster that admits two.
abbrev pub request : Reservation
request = record {
  schedule_id = 2;
  org_id = 1;
  idempotency_key = text_key 40;
  run_id = 100;
  owner_id = 9;
  lease_seconds = 30;
  global_limit = 2;
  org_limit = 1;
  chain_id = 100;
  hop_index = 0;
}

abbrev accepted_event : TriggerEvent
accepted_event = record {
  schedule_id = 2;
  org_id = 1;
  run_id = some 100;
  event_type = dispatch_accepted;
  status = none;
  cost_usdc = 0;
  error = no_error;
}

abbrev pub reserved_tables : ScheduleDb
reserved_tables = record schedule_db {
  event_dispatch_keys = reserved_key 0 request ∷ [];
  event_dispatch_leases = (100, reserved_lease 0 request) ∷ [];
  event_trigger_events = accepted_event ∷ [];
}

pub reserve_runs :
    reserve_event_dispatch_lease 0 request schedule_db ≡ ok (lease_accepted 100, reserved_tables)
unfolding reserve_event_dispatch_lease insert_reservation get_existing_dispatch find_key
    lineage_check hop_taken is_active_lease is_active_of_org is_live
reserve_runs = refl

reserve_event_dispatch_lease-within_example :
    (reserved_tables ≡ schedule_db)
    ⊎ ((lease_accepted 100 ≡ lease_accepted 100)
        × (lookup 100 reserved_tables.event_dispatch_leases ≡ some (reserved_lease 0 request))
        × (count_where (is_active_lease 0) reserved_tables.event_dispatch_leases ≤ 2)
        × (count_where (is_active_of_org 0 1) reserved_tables.event_dispatch_leases ≤ 1))
reserve_event_dispatch_lease-within_example =
    reserve_event_dispatch_lease-within 0 request schedule_db reserved_tables (lease_accepted 100)
      reserve_runs

-- The run starts, and the retention of a day runs an hour later; schedule 3 is deleted.
abbrev later_tables : ScheduleDb
later_tables =
    (delete_scheduled_run 3 1 (
      delete_event_dispatch_keys 3_600_000_000 1 10
        (start_event_dispatch_lease 1_000 100 9 30 reserved_tables).1)).1

abbrev is_third : ℕ → Bool
is_third n = n == 3

later_steps : LeaseSteps 0 is_third reserved_tables later_tables
later_steps =
    then_lease_step
      (then_lease_step (then_lease_step no_steps (starts 1_000 100 9 30))
        (expires 3_600_000_000 1 10 (omega arith)))
      (deletes_schedule 3 1 refl)

reserve_event_dispatch_lease-once_example :
    reserve_event_dispatch_lease 2_000
      (record request { run_id = 101; chain_id = 101 })
      later_tables
    ≡ ok (lease_duplicate 100, later_tables)
reserve_event_dispatch_lease-once_example =
    reserve_event_dispatch_lease-once 0 is_third request schedule_db reserved_tables later_tables
      2_000 (record request { run_id = 101; chain_id = 101 }) reserve_runs later_steps refl refl
      refl

-- A failed lease, and a recovery after it.
abbrev failed_tables : ScheduleDb
failed_tables = record reserved_tables {
  event_dispatch_leases =
      (100, record (reserved_lease 0 request) { status = lease_failed; finished_at = some 5 }) ∷ [];
}

-- Two days later the key is deleted, when its run is over, with the lease.
retention_runs :
    (delete_event_dispatch_keys 172_800_000_000 1 10 failed_tables).event_dispatch_leases ≡ []
unfolding delete_event_dispatch_keys is_deleted_key is_old_key has_live_lease old_keys find_key
    is_live
retention_runs = refl

abbrev failed_lease : DispatchLease
failed_lease = record (reserved_lease 0 request) { status = lease_failed; finished_at = some 5 }

abbrev hour_later : ScheduleDb
hour_later =
    delete_event_dispatch_keys 3_600_000_000 1 10
      (start_event_dispatch_lease 1_000 100 9 30 failed_tables).1

hour_steps : LeaseSteps 0 is_third failed_tables hour_later
hour_steps =
    then_lease_step (then_lease_step no_steps (starts 1_000 100 9 30))
      (expires 3_600_000_000 1 10 (omega arith))

LeaseSteps-LeavesSettled_example : lookup 100 hour_later.event_dispatch_leases ≡ some failed_lease
unfolding is_live find_key
LeaseSteps-LeavesSettled_example =
    LeaseSteps-LeavesSettled 100 failed_lease (reserved_key 0 request) hour_steps (refl, tt) refl
      refl refl (omega arith) refl

reserved-IsHoused : IsHoused reserved_tables
unfolding find_result
reserved-IsHoused id l found = elim (Bool-cases (100 == id)) [
  | inl e ↦
      let it : some (reserved_lease 0 request) ≡ some l = rw e at found in
      let it_is : reserved_lease 0 request ≡ l = cc in
      subst (λ x. BelongsTo id x.schedule_id x.org_id reserved_tables) it_is
        (refl, λ r none_found. cc)
  | inr e ↦ absurd (let gone : none ≡ some l = rw e at found in cc)
]

recover_expired_event_dispatches-finishes_example :
    (d' : ScheduleDb) × (recover_expired_event_dispatches 60_000_000 10 5 reserved_tables
      ≡ ok (
        min 10 (count_where (is_expired_lease 60_000_000) reserved_tables.event_dispatch_leases),
        d',
      ))
    × All (λ row. IsFinal row.0 d') (expired_leases 60_000_000 10 reserved_tables)
    × ((id : ℕ) (l : DispatchLease)
        → lookup id reserved_tables.event_dispatch_leases ≡ some l
        → is_expired_lease 60_000_000 (id, l) ≡ false
        → lookup id d'.event_dispatch_leases ≡ some l)
recover_expired_event_dispatches-finishes_example =
    recover_expired_event_dispatches-finishes 60_000_000 10 5 reserved_tables (refl, tt)
      reserved-IsHoused

recovery_counts_one :
    count_where (is_expired_lease 60_000_000) reserved_tables.event_dispatch_leases ≡ 1
unfolding is_expired_lease is_live
recovery_counts_one = refl

claimed_one : has_id 1 (claim_due_schedules 1_000 25 schedule_db).0 ≡ true
unfolding claim_due_schedules due_schedules claimed_rows is_due_schedule
claimed_one = refl

-- Schedule 1 is claimed when it is due, and not a second later.
-- Half a second later another worker claims, and half a second after that a third.
abbrev claimed_twice : ScheduleDb
claimed_twice = (claim_due_schedules 501_000 25 (claim_due_schedules 1_000 25 schedule_db).1).1

claim_due_schedules-Disjoint_example :
    (has_id 1 (claim_due_schedules 1_001_000 25 claimed_twice).0 ≡ false)
    × (length (claim_due_schedules 1_001_000 25 claimed_twice).0 ≤ 25)
claim_due_schedules-Disjoint_example =
    claim_due_schedules-Disjoint 1_000 25 1_001_000 25 1 60 daily schedule_db claimed_twice
      (refl, (refl, (refl, tt))) refl refl claimed_one
      (then_claim_step no_claim_steps (claims_due 501_000 25 (omega arith))) (omega arith)

-- A reserved lease that has expired frees its slot, and can still be started: then more leases are
-- active than the limit of 1.
abbrev late_db : ScheduleDb
late_db = record reserved_tables {
  event_dispatch_leases =
      (100, reserved_lease 0 request)
      ∷ (
        101,
        reserved_lease 40_000_000 (record request { run_id = 101; idempotency_key = text_key 41 }),
      )
      ∷ [];
}

late_reservation_fits : count_where (is_active_lease 40_000_000) late_db.event_dispatch_leases ≡ 1
unfolding is_active_lease is_live
late_reservation_fits = refl

late_start_exceeds :
    count_where
      (is_active_lease 40_000_000)
      (start_event_dispatch_lease 40_000_000 100 9 30 late_db).1.event_dispatch_leases
    ≡ 2
unfolding start_event_dispatch_lease is_active_lease is_live started_lease is_startable
late_start_exceeds = refl
