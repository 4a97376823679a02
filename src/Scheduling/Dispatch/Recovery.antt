-- ===== src/Scheduling/Dispatch/Recovery.antt =====
-- The recovery always returns, and makes the expired leases terminal.
use teardrop.Common.{
  All, All-map, Keyed, Unique, [], arith, count_where, false, length, length-select, length-sort_by,
  length-take-min, lookup, min, refl, select, some, sort_by, ℕ, ◌∙◌, ◌∷◌, ◌≡◌,
}
use teardrop.Scheduling.Dispatch.Housed.{BelongsTo, IsFinal, IsHoused, ensure_result-returns}
use teardrop.Scheduling.Dispatch.Kept.{expired_leases-Live, recover_each-Keeps, unexpired-HasNot}
use teardrop.Scheduling.Dispatch.Recovered.{
  HasLeases, moved, recovered_with-HasLeases, recovered_with-IsFinal, recovered_with-IsHoused,
  recovered_with-IsFinal_kept,
}
use teardrop.Scheduling.Dispatch.Settle.{
  ensure_result, expired_leases, expires_before, is_expired_lease, recover_each,
  recover_expired_event_dispatches, recovered_with,
}
use teardrop.Scheduling.Dispatch.Steps.{KeepsLeases, ensure_result-Kept}
use teardrop.Scheduling.Tables.{DispatchLease, ScheduleDb, recovery_timed_out}
use teardrop.Schema.{OnOk-returned, ok}

recover_each_complete :
    (now limit : ℕ) (rows : Keyed DispatchLease) (d : ScheduleDb)
    → IsHoused d
    → HasLeases rows d
    → (d' : ScheduleDb) × (recover_each now limit rows d ≡ ok d')
      × All (λ row. IsFinal row.0 d') rows
      × ((id : ℕ) → IsFinal id d → IsFinal id d')
unfolding recover_each
recover_each_complete now limit [] d housed there = (d, refl, tt, λ id final_id. final_id)
recover_each_complete now limit ((run_id, l) ∷ rest) d housed
      ((m, found, schedule_m, org_m), there) =
    let belongs : BelongsTo run_id l.schedule_id l.org_id d =
      moved run_id d schedule_m org_m (housed run_id m found) in
    let ((r, e), made) =
      ensure_result-returns now l.schedule_id l.org_id run_id limit recovery_timed_out d belongs in
    let kept =
      OnOk-returned (λ out. KeepsLeases d out.1)
        (ensure_result now l.schedule_id l.org_id run_id limit recovery_timed_out d) made
        (ensure_result-Kept now l.schedule_id l.org_id run_id limit recovery_timed_out d) in
    let e' = recovered_with now (run_id, l) (r, e) in
    let first : IsFinal run_id e' = recovered_with-IsFinal now run_id l m r e (rw kept.0 found) in
    let (d', answered, finals, stays) =
      recover_each_complete now limit rest e'
        (recovered_with-IsHoused now run_id limit l m r d e made found (schedule_m, org_m) housed)
        (recovered_with-HasLeases now run_id l r d e rest kept.0 there) in
    (
      d',
      rw made answered,
      (stays run_id first, finals),
      λ id final_id. stays id (recovered_with-IsFinal_kept now run_id id l r d e kept.0 final_id),
    )

-- Each row that a recovery takes finds its lease.
expired_leases-HasLeases :
    (now batch : ℕ) (d : ScheduleDb)
    → Unique d.event_dispatch_leases
    → HasLeases (expired_leases now batch d) d
expired_leases-HasLeases now batch d unique =
    All-map _ _ (expired_leases now batch d) (λ (id, l) (found, _). (l, found, refl, refl))
      (expired_leases-Live now batch d unique)

expired_leases-length :
    (now batch : ℕ) (d : ScheduleDb)
    → length (expired_leases now batch d)
      ≡ min batch (count_where (is_expired_lease now) d.event_dispatch_leases)
unfolding expired_leases
expired_leases-length now batch d =
    let rows = select (is_expired_lease now) d.event_dispatch_leases in
    omega (
      arith,
      length-take-min batch (sort_by expires_before rows),
      length-sort_by expires_before rows,
      length-select (is_expired_lease now) d.event_dispatch_leases,
    )

-- A recovery always returns when the leases have distinct run ids and belong to their schedules. It
-- answers the number of the expired leases, `batch` at most; every lease that it has taken is
-- terminal then, and every lease that was not expired is the row that it was.
pub recover_expired_event_dispatches-finishes :
    (now batch limit : ℕ) (d : ScheduleDb)
    → Unique d.event_dispatch_leases
    → IsHoused d
    → (d' : ScheduleDb) × (recover_expired_event_dispatches now batch limit d
        ≡ ok (min batch (count_where (is_expired_lease now) d.event_dispatch_leases), d'))
      × All (λ row. IsFinal row.0 d') (expired_leases now batch d)
      × ((id : ℕ) (l : DispatchLease)
          → lookup id d.event_dispatch_leases ≡ some l
          → is_expired_lease now (id, l) ≡ false
          → lookup id d'.event_dispatch_leases ≡ some l)
unfolding recover_expired_event_dispatches
recover_expired_event_dispatches-finishes now batch limit d unique housed =
    let rows = expired_leases now batch d in
    let (d', answered, finals, _) =
      recover_each_complete now limit rows d housed (expired_leases-HasLeases now batch d unique) in
    let keep =
      OnOk-returned _ (recover_each now limit rows d) answered
        (recover_each-Keeps now limit rows d unique) in
    (
      d',
      rw (answered, expired_leases-length now batch d) refl,
      finals,
      λ id l found unexpired.
          keep.1 id (
            unexpired-HasNot now id l d rows found unexpired
              (expired_leases-Live now batch d unique))
          ∙ found,
    )
