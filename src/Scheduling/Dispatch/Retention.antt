-- ===== src/Scheduling/Dispatch/Retention.antt =====
-- teardrop/retention.py: the deletion of old idempotency keys, one batch, with the leases that refer to
-- them (ON DELETE CASCADE of migration 102). No row is locked by another transaction.
use teardrop.Common.{
  Bool, List, exists, leb, ltb, not, select, sort_by, take, ℕ, ◌&&◌, ◌*◌, ◌+◌, ◌==◌,
}
use teardrop.Scheduling.Dispatch.{find_key, is_live}
use teardrop.Scheduling.Tables.{DispatchKey, ScheduleDb, is_there, key_eq}
use teardrop.Schema.{day_us}

-- EXISTS (SELECT 1 FROM event_dispatch_leases … status IN ('reserved', 'running'))
unfoldable pub has_live_lease : DispatchKey → ScheduleDb → Bool
has_live_lease k d =
    exists
      (λ l.
        l.1.schedule_id == k.schedule_id
        && key_eq l.1.idempotency_key k.idempotency_key
        && is_live l.1)
      d.event_dispatch_leases

-- created_at < NOW() - make_interval(days => $1) AND NOT EXISTS …
unfoldable pub is_old_key : ℕ → ℕ → ScheduleDb → DispatchKey → Bool
unfolding has_live_lease
is_old_key now days d k = ltb (k.created_at + days * day_us) now && not (has_live_lease k d)

-- ORDER BY created_at LIMIT $2
unfoldable pub old_keys : ℕ → ℕ → ℕ → ScheduleDb → List DispatchKey
unfolding is_old_key
old_keys now days limit d = take limit (
    sort_by (λ k j. leb k.created_at j.created_at)
      (select (is_old_key now days d) d.event_dispatch_keys))

-- ctid IN (SELECT ctid FROM candidates): the row is one of them.
unfoldable pub is_deleted_key : ℕ → ℕ → ℕ → ScheduleDb → DispatchKey → Bool
unfolding is_old_key old_keys
is_deleted_key now days limit d k =
    is_old_key now days d k
    && exists (λ j. j.schedule_id == k.schedule_id && key_eq j.idempotency_key k.idempotency_key)
        (old_keys now days limit d)

unfoldable pub delete_event_dispatch_keys : ℕ → ℕ → ℕ → ScheduleDb → ScheduleDb
unfolding is_deleted_key
delete_event_dispatch_keys now days limit d =
    let keys = select (λ k. not (is_deleted_key now days limit d k)) d.event_dispatch_keys in
    record d {
      event_dispatch_keys = keys;
      event_dispatch_leases =
          select (λ l. is_there (find_key l.1.schedule_id l.1.idempotency_key keys))
            d.event_dispatch_leases;
    }
