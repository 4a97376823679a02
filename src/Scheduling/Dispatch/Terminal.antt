-- ===== src/Scheduling/Dispatch/Terminal.antt =====
-- A lease that is completed or failed stays as it is.
use teardrop.Common.{
  Bool, Bool-cases, Option-cases, Unique, Unique-select, arith, false, inl, inr, length, lookup,
  lookup-select, not, refl, some, ℕ, ◌==◌, ◌∙◌, ◌≡◌, ◌≤◌,
}
use teardrop.Scheduling.Dispatch.{
  find_key, finds_lease, is_live, renew_event_dispatch_lease, renewed_lease,
  reserve_event_dispatch_lease, start_event_dispatch_lease, started_lease,
}
use teardrop.Scheduling.Dispatch.AtMostOnce.{LeaseSteps-KeepsKey}
use teardrop.Scheduling.Dispatch.Kept.{
  KeepsSettled, KeepsSettled-same, expired_leases-Live, fail_with-Keeps,
  finish_event_dispatch_lease-Keeps, recover_each-Keeps, renewed_lease-same,
  reserve_event_dispatch_lease-Keeps, started_lease-same, unexpired-HasNot, update_lease-Keeps,
}
use teardrop.Scheduling.Dispatch.Keys.{kept_schedule}
use teardrop.Scheduling.Dispatch.Retention.{delete_event_dispatch_keys}
use teardrop.Scheduling.Dispatch.Settle.{
  ensure_result, expired_leases, fail_event_dispatch, fail_with, finish_event_dispatch_lease,
  is_expired_lease, is_finishable, record_scheduled_run_result, recover_each,
  recover_expired_event_dispatches,
}
use teardrop.Scheduling.Dispatch.Steps.{
  KeepsLeases, LeaseStep, LeaseSteps, deletes_schedule, ensure_result-Kept, expires, fails,
  finishes, marks, no_steps, records, recovers, renews, reserves, starts, then_lease_step,
  writes_other_tables,
}
use teardrop.Scheduling.Schedules.{get_scheduled_run}
use teardrop.Scheduling.Schedules.Update.{delete_scheduled_run}
use teardrop.Scheduling.Tables.{
  DispatchKey, DispatchLease, ErrorText, ScheduleDb, is_there, update_schedule,
}
use teardrop.Schema.{OnOk, OnOk->>=, OnOk-returned, ok}

settled_unexpired :
    (now id : ℕ) (l : DispatchLease) → is_live l ≡ false → is_expired_lease now (id, l) ≡ false
unfolding is_expired_lease
settled_unexpired now id l h = ground (arith, h)

recover_expired-Keeps :
    (now batch limit : ℕ) (d : ScheduleDb)
    → Unique d.event_dispatch_leases
    → OnOk (λ out. KeepsSettled d out.1) (recover_expired_event_dispatches now batch limit d)
unfolding recover_expired_event_dispatches
recover_expired-Keeps now batch limit d unique =
    let rows = expired_leases now batch d in
    OnOk->>= _ (λ out. KeepsSettled d out.1) (recover_each now limit rows d)
      (λ d'. ok (length rows, d')) (recover_each-Keeps now limit rows d unique)
      λ d' (unique', keep). (
        unique',
        λ id l found settled_l.
            keep id (
              unexpired-HasNot now id l d rows found (settled_unexpired now id l settled_l)
                (expired_leases-Live now batch d unique))
            ∙ found,
      )

fail_event_dispatch-Keeps :
    (now schedule org run_id owner limit : ℕ) (error : ErrorText) (d : ScheduleDb)
    → Unique d.event_dispatch_leases
    → OnOk
        (λ out. KeepsSettled d out.1)
        (fail_event_dispatch now schedule org run_id owner limit error d)
unfolding fail_event_dispatch
fail_event_dispatch-Keeps now schedule org run_id owner limit error d unique =
    elim (Bool-cases (finds_lease run_id (is_finishable owner) d)) [
      | inl e ↦ rw e (
          OnOk->>= (λ out. KeepsLeases d out.1) (λ out. KeepsSettled d out.1)
            (ensure_result now schedule org run_id limit error d)
            (λ answered. ok (fail_with now schedule org run_id error answered))
            (ensure_result-Kept now schedule org run_id limit error d)
            λ (r, f) kept. fail_with-Keeps now schedule org run_id owner error d f r unique e kept)
      | inr e ↦ rw e (KeepsSettled-same d d unique refl)
    ]

-- What a statement leaves of the leases: a terminal one stays, while its key does.
abbrev LeavesKeyed : ScheduleDb → ScheduleDb → Type 0
LeavesKeyed d d' =
    Unique d'.event_dispatch_leases
    × ((id : ℕ) (l : DispatchLease) (k : DispatchKey)
        → lookup id d.event_dispatch_leases ≡ some l
        → is_live l ≡ false
        → find_key l.schedule_id l.idempotency_key d'.event_dispatch_keys ≡ some k
        → lookup id d'.event_dispatch_leases ≡ some l)

settled-LeavesKeyed : (d d' : ScheduleDb) → KeepsSettled d d' → LeavesKeyed d d'
settled-LeavesKeyed d d' (unique, keep) =
    (unique, λ id l k found settled_l kept. keep id l found settled_l)

expired-LeavesKeyed :
    (now days limit : ℕ) (d : ScheduleDb)
    → Unique d.event_dispatch_leases
    → LeavesKeyed d (delete_event_dispatch_keys now days limit d)
unfolding delete_event_dispatch_keys
expired-LeavesKeyed now days limit d unique =
    let keys = (delete_event_dispatch_keys now days limit d).event_dispatch_keys in
    let stays : ℕ × DispatchLease → Bool =
      λ l. is_there (find_key l.1.schedule_id l.1.idempotency_key keys) in
    (
      Unique-select stays d.event_dispatch_leases unique,
      λ id l k found settled_l kept.
          lookup-select stays id d.event_dispatch_leases {v = l} found (rw kept refl),
    )

deleted-LeavesKeyed :
    (schedule org : ℕ) (d : ScheduleDb)
    → Unique d.event_dispatch_leases
    → LeavesKeyed d (delete_scheduled_run schedule org d).1
unfolding delete_scheduled_run
deleted-LeavesKeyed schedule org d unique = elim (Option-cases (get_scheduled_run schedule org d)) [
  | inl e ↦ rw (e, delete_scheduled_run) (unique, λ id l k found settled_l kept. found)
  | inr (own, e) ↦
      let stays : ℕ × DispatchLease → Bool = λ l. not (l.1.schedule_id == schedule) in
      rw (e, delete_scheduled_run)
        (
          Unique-select stays d.event_dispatch_leases unique,
          λ id l k found settled_l kept.
              lookup-select stays id d.event_dispatch_leases {v = l} found (
                kept_schedule l.schedule_id l.idempotency_key schedule k d.event_dispatch_keys
                  kept),
        )
]

LeaseStep-Keeps :
    {horizon : ℕ} {gone : ℕ → Bool} {d d' : ScheduleDb}
    → LeaseStep horizon gone d d'
    → Unique d.event_dispatch_leases
    → LeavesKeyed d d'
unfolding start_event_dispatch_lease renew_event_dispatch_lease record_scheduled_run_result
LeaseStep-Keeps (reserves now q {d = d} {d' = d'} h) unique = settled-LeavesKeyed d d' (
    OnOk-returned _ (reserve_event_dispatch_lease now q d) h
      (reserve_event_dispatch_lease-Keeps now q d unique))
LeaseStep-Keeps (starts now run_id owner seconds {d}) unique =
    settled-LeavesKeyed d (start_event_dispatch_lease now run_id owner seconds d).1 (
      update_lease-Keeps run_id (started_lease now owner seconds) d unique
        (λ l _. started_lease-same now owner seconds l))
LeaseStep-Keeps (renews now run_id owner seconds {d}) unique =
    settled-LeavesKeyed d (renew_event_dispatch_lease now run_id owner seconds d).1 (
      update_lease-Keeps run_id (renewed_lease now owner seconds) d unique
        (λ l _. renewed_lease-same now owner seconds l))
LeaseStep-Keeps (finishes now schedule org run_id owner r {d}) unique =
    settled-LeavesKeyed d (finish_event_dispatch_lease now schedule org run_id owner r d).1
      (finish_event_dispatch_lease-Keeps now schedule org run_id owner r d unique)
LeaseStep-Keeps (fails now schedule org run_id owner limit error {d = d} {d' = d'} h) unique =
    settled-LeavesKeyed d d' (
      OnOk-returned _ (fail_event_dispatch now schedule org run_id owner limit error d) h
        (fail_event_dispatch-Keeps now schedule org run_id owner limit error d unique))
LeaseStep-Keeps (recovers now batch limit {d = d} {d' = d'} h) unique = settled-LeavesKeyed d d' (
    OnOk-returned _ (recover_expired_event_dispatches now batch limit d) h
      (recover_expired-Keeps now batch limit d unique))
LeaseStep-Keeps (records r {d = d} {d' = d'} h) unique =
    settled-LeavesKeyed d d' (KeepsSettled-same d d' unique (ground (arith, h)))
LeaseStep-Keeps (marks id f {d}) unique =
    settled-LeavesKeyed d (update_schedule id f d)
      (KeepsSettled-same d (update_schedule id f d) unique refl)
LeaseStep-Keeps (expires now days limit {d} early) unique =
    expired-LeavesKeyed now days limit d unique
LeaseStep-Keeps (deletes_schedule id org {d} is_gone) unique = deleted-LeavesKeyed id org d unique
LeaseStep-Keeps (writes_other_tables {d} {d'} _ same) unique =
    settled-LeavesKeyed d d' (KeepsSettled-same d d' unique same)

LeaseSteps-Keeps :
    {horizon : ℕ} {gone : ℕ → Bool} {d d' : ScheduleDb}
    → LeaseSteps horizon gone d d'
    → Unique d.event_dispatch_leases
    → (id : ℕ) (l : DispatchLease) (k : DispatchKey) → lookup id d.event_dispatch_leases ≡ some l
    → is_live l ≡ false
    → gone l.schedule_id ≡ false
    → horizon ≤ k.created_at
    → find_key l.schedule_id l.idempotency_key d.event_dispatch_keys ≡ some k
    → Unique d'.event_dispatch_leases × (lookup id d'.event_dispatch_leases ≡ some l)
LeaseSteps-Keeps no_steps unique id l k found settled_l spared young keyed = (unique, found)
LeaseSteps-Keeps (then_lease_step steps step) unique id l k found settled_l spared young keyed =
    let (unique_e, found_e) =
      LeaseSteps-Keeps steps unique id l k found settled_l spared young keyed in
    let keyed' =
      LeaseSteps-KeepsKey (then_lease_step steps step) l.schedule_id l.idempotency_key k spared
        young keyed in
    let (unique_f, keep) = LeaseStep-Keeps step unique_e in
    (unique_f, keep id l k found_e settled_l keyed')

-- A lease that is completed or failed, whose key was made at `horizon` or later and whose schedule is
-- not deleted, in a state whose leases have distinct run ids, is the same row after any steps of the
-- workers and the recovery, any writes to other tables, any deletions of other schedules, and any
-- deletions by the retention with a cut-off at `horizon` or before.
pub LeaseSteps-LeavesSettled :
    {horizon : ℕ} {gone : ℕ → Bool} {d d' : ScheduleDb} (id : ℕ) (l : DispatchLease)
    (k : DispatchKey)
    → LeaseSteps horizon gone d d'
    → Unique d.event_dispatch_leases
    → lookup id d.event_dispatch_leases ≡ some l
    → is_live l ≡ false
    → find_key l.schedule_id l.idempotency_key d.event_dispatch_keys ≡ some k
    → horizon ≤ k.created_at
    → gone l.schedule_id ≡ false
    → lookup id d'.event_dispatch_leases ≡ some l
LeaseSteps-LeavesSettled id l k steps unique found settled_l keyed young spared =
    (LeaseSteps-Keeps steps unique id l k found settled_l spared young keyed).1
