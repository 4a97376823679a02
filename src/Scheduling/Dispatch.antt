-- ===== src/Scheduling/Dispatch.antt =====
-- scheduling/crud.py: event_dispatch_leases, the reservation of an event run and its way to a terminal
-- state. Each operation is one transaction; the reservation holds a global advisory lock, and no row
-- that the recovery reads is locked by another transaction.
pub mod Settle
pub mod Retention
pub mod Steps
pub mod Kept
pub mod Terminal
pub mod Bounds
pub mod Keys
pub mod AtMostOnce
pub mod Housed
pub mod Recovered
pub mod Recovery
use teardrop.Common.{
  Bool, List, Option, count_where, exists, false, find?, if◌then◌else◌, leb, lookup, ltb, none, not,
  some, upsert, ℕ, ◌&&◌, ◌*◌, ◌+◌, ◌==◌, ◌||◌, ◌∷◌,
}
use teardrop.Scheduling.Tables.{
  DispatchKey, DispatchLease, IdempotencyKey, ScheduleDb, dispatch_accepted, insert_event_row,
  is_live_status, is_reserved_status, is_running_status, is_there, key_eq, lease_reserved,
  lease_running, no_error, update_lease,
}
use teardrop.Schema.{
  Result, check_violation, err, foreign_key_violation, ok, second_us, unique_violation,
}

-- status IN ('reserved', 'running')
unfoldable pub is_live : DispatchLease → Bool
is_live l = is_live_status l.status

-- … AND lease_expires_at > NOW()
unfoldable pub is_active_lease : ℕ → ℕ × DispatchLease → Bool
unfolding is_live
is_active_lease now (_, l) = is_live l && ltb now l.lease_expires_at

-- … AND org_id = $1
unfoldable pub is_active_of_org : ℕ → ℕ → ℕ × DispatchLease → Bool
unfolding is_active_lease
is_active_of_org now org (id, l) = l.org_id == org && is_active_lease now (id, l)

-- SELECT … FROM event_dispatch_keys WHERE schedule_id = $1 AND idempotency_key = $2
unfoldable pub find_key : ℕ → IdempotencyKey → List DispatchKey → Option DispatchKey
find_key schedule key = find? (λ k. k.schedule_id == schedule && key_eq k.idempotency_key key)

-- get_existing_dispatch
unfoldable pub get_existing_dispatch : ℕ → IdempotencyKey → ScheduleDb → Option ℕ
unfolding find_key
get_existing_dispatch schedule key d = elim (find_key schedule key d.event_dispatch_keys) [
  | none ↦ none
  | some k ↦ some k.run_id
]

-- get_event_dispatch_lineage
unfoldable pub get_event_dispatch_lineage : ℕ → ℕ → ScheduleDb → Option (ℕ × ℕ)
get_event_dispatch_lineage schedule run_id d =
    elim (find? (λ k. k.schedule_id == schedule && k.run_id == run_id) d.event_dispatch_keys) [
      | none ↦ none
      | some k ↦ some (k.chain_id, k.hop_index)
    ]

-- The arguments of reserve_event_dispatch_lease.
pub record Reservation : Type 0 where
  pub schedule_id : ℕ
  pub org_id : ℕ
  pub idempotency_key : IdempotencyKey
  pub run_id : ℕ
  pub owner_id : ℕ
  pub lease_seconds : ℕ
  pub global_limit : ℕ
  pub org_limit : ℕ
  pub chain_id : ℕ
  pub hop_index : ℕ

-- EventDispatchLeaseResult
pub data LeaseOutcome : Type 0 where
  lease_accepted lease_duplicate lease_saturated : ℕ → LeaseOutcome

abbrev pub reserved_key : ℕ → Reservation → DispatchKey
reserved_key now q = record {
  schedule_id = q.schedule_id;
  idempotency_key = q.idempotency_key;
  run_id = q.run_id;
  chain_id = q.chain_id;
  hop_index = q.hop_index;
  created_at = now;
}

abbrev pub reserved_lease : ℕ → Reservation → DispatchLease
reserved_lease now q = record {
  schedule_id = q.schedule_id;
  org_id = q.org_id;
  idempotency_key = q.idempotency_key;
  owner_id = q.owner_id;
  status = lease_reserved;
  lease_expires_at = now + q.lease_seconds * second_us;
  started_at = none;
  finished_at = none;
  last_error = no_error;
  updated_at = now;
}

-- hop_index > 0 OR chain_id = run_id
unfoldable pub lineage_check : Reservation → Bool
lineage_check q = ltb 0 q.hop_index || q.chain_id == q.run_id

-- UNIQUE (chain_id, hop_index)
unfoldable pub hop_taken : Reservation → ScheduleDb → Bool
hop_taken q d =
    exists (λ k. k.chain_id == q.chain_id && k.hop_index == q.hop_index) d.event_dispatch_keys

-- The two INSERTs and the audit row.
unfoldable pub insert_reservation :
    ℕ → Reservation → ScheduleDb → Result (LeaseOutcome × ScheduleDb)
unfolding lineage_check hop_taken
insert_reservation now q d =
    if not (is_there (lookup q.schedule_id d.scheduled_runs))
    then err foreign_key_violation
    else if not (lineage_check q)
    then err check_violation
    else if hop_taken q d || is_there (lookup q.run_id d.event_dispatch_leases)
    then err unique_violation
    else ok (
      lease_accepted q.run_id,
      insert_event_row
          (record {
            schedule_id = q.schedule_id;
            org_id = q.org_id;
            run_id = some q.run_id;
            event_type = dispatch_accepted;
            status = none;
            cost_usdc = 0;
            error = no_error;
          })
          (record d {
            event_dispatch_keys = reserved_key now q ∷ d.event_dispatch_keys;
            event_dispatch_leases = upsert q.run_id (reserved_lease now q) d.event_dispatch_leases;
          }),
    )

unfoldable pub reserve_event_dispatch_lease :
    ℕ → Reservation → ScheduleDb → Result (LeaseOutcome × ScheduleDb)
unfolding get_existing_dispatch insert_reservation is_active_lease is_active_of_org
reserve_event_dispatch_lease now q d =
    elim (get_existing_dispatch q.schedule_id q.idempotency_key d) [
      | some existing ↦ ok (lease_duplicate existing, d)
      | none ↦
          if leb q.global_limit (count_where (is_active_lease now) d.event_dispatch_leases)
          then ok (lease_saturated q.run_id, d)
          else if leb q.org_limit
              (count_where (is_active_of_org now q.org_id) d.event_dispatch_leases)
          then ok (lease_saturated q.run_id, d)
          else insert_reservation now q d
    ]

-- start_event_dispatch_lease and renew_event_dispatch_lease

-- COALESCE(a, b)
abbrev coalesce : Option ℕ → ℕ → ℕ
coalesce none b = b
coalesce (some a) b = a

unfoldable pub is_startable : ℕ → DispatchLease → Bool
is_startable owner l = l.owner_id == owner && is_reserved_status l.status

unfoldable pub is_renewable : ℕ → DispatchLease → Bool
is_renewable owner l = l.owner_id == owner && is_running_status l.status

unfoldable pub started_lease : ℕ → ℕ → ℕ → DispatchLease → DispatchLease
unfolding is_startable
started_lease now owner seconds l =
    if is_startable owner l
    then record l {
      status = lease_running;
      started_at = some (coalesce l.started_at now);
      lease_expires_at = now + seconds * second_us;
      updated_at = now;
    }
    else l

unfoldable pub renewed_lease : ℕ → ℕ → ℕ → DispatchLease → DispatchLease
unfolding is_renewable
renewed_lease now owner seconds l =
    if is_renewable owner l
    then record l { lease_expires_at = now + seconds * second_us; updated_at = now }
    else l

-- Whether the UPDATE finds its row.
abbrev pub finds_lease : ℕ → (DispatchLease → Bool) → ScheduleDb → Bool
finds_lease run_id p d = elim (lookup run_id d.event_dispatch_leases) [
  | none ↦ false
  | some l ↦ p l
]

unfoldable pub start_event_dispatch_lease : ℕ → ℕ → ℕ → ℕ → ScheduleDb → Bool × ScheduleDb
unfolding started_lease is_startable
start_event_dispatch_lease now run_id owner seconds d = (
  finds_lease run_id (is_startable owner) d,
  update_lease run_id (started_lease now owner seconds) d,
)

unfoldable pub renew_event_dispatch_lease : ℕ → ℕ → ℕ → ℕ → ScheduleDb → Bool × ScheduleDb
unfolding renewed_lease is_renewable
renew_event_dispatch_lease now run_id owner seconds d = (
  finds_lease run_id (is_renewable owner) d,
  update_lease run_id (renewed_lease now owner seconds) d,
)
