-- ===== src/Scheduling/Dispatch/AtMostOnce.antt =====
-- A key of a schedule starts one run.
use teardrop.Common.{
  ==_refl, Bool, Keyed, List, Option-cases, [], arith, count_where, false, if◌then◌else◌, inl, inr,
  leb, length, refl, some, ℕ, ◌∙◌, ◌∷◌, ◌≡◌,
}
use teardrop.Scheduling.Dispatch.{
  LeaseOutcome, Reservation, find_key, get_existing_dispatch, insert_reservation, is_active_lease,
  is_active_of_org, lease_accepted, lease_duplicate, lease_saturated, renew_event_dispatch_lease,
  reserve_event_dispatch_lease, reserved_key, start_event_dispatch_lease,
}
use teardrop.Scheduling.Dispatch.Keys.{
  KeepsKey, added_key-KeepsKey, deleted-KeepsKey, expired-KeepsKey, key_eq_refl, same_keys-KeepsKey,
}
use teardrop.Scheduling.Dispatch.Settle.{
  ensure_result, expired_leases, fail_event_dispatch, fail_with, finish_event_dispatch_lease,
  record_scheduled_run_result, recover_each, recover_expired_event_dispatches, recovered_with,
}
use teardrop.Scheduling.Dispatch.Steps.{
  KeepsLeases, LeaseStep, LeaseSteps, deletes_schedule, ensure_result-Kept, expires, fails,
  finishes, marks, no_steps, records, recovers, renews, reserves, starts, then_lease_step,
  writes_other_tables,
}
use teardrop.Scheduling.Marks.{mark_scheduled_run_failed}
use teardrop.Scheduling.Tables.{
  DispatchKey, DispatchLease, ErrorText, IdempotencyKey, ScheduleDb, recovery_timed_out,
  update_schedule,
}
use teardrop.Schema.{OnOk, OnOk->>=, OnOk-if, OnOk-map, OnOk-returned, ok}

abbrev Reserves : ℕ → Reservation → ScheduleDb → LeaseOutcome × ScheduleDb → Type 0
Reserves now q d (out, d') =
    (out ≡ lease_accepted q.run_id)
    × (d'.event_dispatch_keys ≡ reserved_key now q ∷ d.event_dispatch_keys)

insert_reservation-Reserves :
    (now : ℕ) (q : Reservation) (d : ScheduleDb)
    → OnOk (Reserves now q d) (insert_reservation now q d)
unfolding insert_reservation
insert_reservation-Reserves now q d = ground arith

reserve-KeepsKey :
    (horizon : ℕ) (gone : ℕ → Bool) (now : ℕ) (q : Reservation) (d : ScheduleDb)
    → OnOk (λ out. KeepsKey horizon gone d out.1) (reserve_event_dispatch_lease now q d)
unfolding reserve_event_dispatch_lease
reserve-KeepsKey horizon gone now q d =
    let same = same_keys-KeepsKey horizon gone d d refl in
    elim (Option-cases (get_existing_dispatch q.schedule_id q.idempotency_key d)) [
      | inr (run_id, e) ↦ rw (e, reserve_event_dispatch_lease) same
      | inl e ↦
          let inserted =
            OnOk-map (Reserves now q d) (λ out. KeepsKey horizon gone d out.1)
              (insert_reservation now q d)
              (λ (out, d') (_, added). added_key-KeepsKey horizon gone now q d d' e added)
              (insert_reservation-Reserves now q d) in
          rw (e, reserve_event_dispatch_lease)
            (OnOk-if (λ out. KeepsKey horizon gone d out.1)
              (leb q.global_limit (count_where (is_active_lease now) d.event_dispatch_leases))
              (ok (lease_saturated q.run_id, d))
              (if leb q.org_limit
                  (count_where (is_active_of_org now q.org_id) d.event_dispatch_leases)
                then ok (lease_saturated q.run_id, d)
                else insert_reservation now q d)
              same
              (OnOk-if (λ out. KeepsKey horizon gone d out.1)
                (leb q.org_limit
                  (count_where (is_active_of_org now q.org_id) d.event_dispatch_leases))
                (ok (lease_saturated q.run_id, d)) (insert_reservation now q d) same inserted))
    ]

recover_each-Kept :
    (now limit : ℕ) (rows : Keyed DispatchLease) (d : ScheduleDb)
    → OnOk (λ d'. d'.event_dispatch_keys ≡ d.event_dispatch_keys) (recover_each now limit rows d)
unfolding recover_each recovered_with
recover_each-Kept now limit [] d = refl
recover_each-Kept now limit ((run_id, l) ∷ rest) d =
    OnOk->>= (λ out. KeepsLeases d out.1) _
      (ensure_result now l.schedule_id l.org_id run_id limit recovery_timed_out d)
      (λ answered. recover_each now limit rest (recovered_with now (run_id, l) answered))
      (ensure_result-Kept now l.schedule_id l.org_id run_id limit recovery_timed_out d)
      λ (r, e) (_, same).
        let e' = recovered_with now (run_id, l) (r, e) in
        OnOk-map _ _ (recover_each now limit rest e') (λ d' kept. kept ∙ same)
          (recover_each-Kept now limit rest e')

fail_event_dispatch-Kept :
    (now schedule org run_id owner limit : ℕ) (error : ErrorText) (d : ScheduleDb)
    → OnOk
        (λ out. out.1.event_dispatch_keys ≡ d.event_dispatch_keys)
        (fail_event_dispatch now schedule org run_id owner limit error d)
unfolding fail_event_dispatch fail_with ensure_result mark_scheduled_run_failed
fail_event_dispatch-Kept now schedule org run_id owner limit error d = ground arith

recover_expired-Kept :
    (now batch limit : ℕ) (d : ScheduleDb)
    → OnOk
        (λ out. out.1.event_dispatch_keys ≡ d.event_dispatch_keys)
        (recover_expired_event_dispatches now batch limit d)
unfolding recover_expired_event_dispatches
recover_expired-Kept now batch limit d =
    let rows = expired_leases now batch d in
    OnOk->>= (λ d'. d'.event_dispatch_keys ≡ d.event_dispatch_keys) _
      (recover_each now limit rows d) (λ d'. ok (length rows, d'))
      (recover_each-Kept now limit rows d) (λ d' kept. kept)

LeaseStep-KeepsKey :
    {horizon : ℕ} {gone : ℕ → Bool} {d d' : ScheduleDb}
    → LeaseStep horizon gone d d'
    → KeepsKey horizon gone d d'
unfolding start_event_dispatch_lease renew_event_dispatch_lease finish_event_dispatch_lease
    record_scheduled_run_result
LeaseStep-KeepsKey {horizon} {gone} (reserves now q {d = d} h) =
    OnOk-returned _ (reserve_event_dispatch_lease now q d) h (reserve-KeepsKey horizon gone now q d)
LeaseStep-KeepsKey {horizon} {gone} (starts now run_id owner seconds {d}) =
    same_keys-KeepsKey horizon gone d (start_event_dispatch_lease now run_id owner seconds d).1 refl
LeaseStep-KeepsKey {horizon} {gone} (renews now run_id owner seconds {d}) =
    same_keys-KeepsKey horizon gone d (renew_event_dispatch_lease now run_id owner seconds d).1 refl
LeaseStep-KeepsKey {horizon} {gone} (finishes now schedule org run_id owner r {d}) =
    same_keys-KeepsKey horizon gone d
      (finish_event_dispatch_lease now schedule org run_id owner r d).1 (ground arith)
LeaseStep-KeepsKey {horizon} {gone}
      (fails now schedule org run_id owner limit error {d = d} {d' = d'} h) =
    same_keys-KeepsKey horizon gone d d' (
      OnOk-returned _ (fail_event_dispatch now schedule org run_id owner limit error d) h
        (fail_event_dispatch-Kept now schedule org run_id owner limit error d))
LeaseStep-KeepsKey {horizon} {gone} (recovers now batch limit {d = d} {d' = d'} h) =
    same_keys-KeepsKey horizon gone d d' (
      OnOk-returned _ (recover_expired_event_dispatches now batch limit d) h
        (recover_expired-Kept now batch limit d))
LeaseStep-KeepsKey {horizon} {gone} (records r {d = d} {d' = d'} h) =
    same_keys-KeepsKey horizon gone d d' (ground (arith, h))
LeaseStep-KeepsKey {horizon} {gone} (marks id f {d}) =
    same_keys-KeepsKey horizon gone d (update_schedule id f d) refl
LeaseStep-KeepsKey {horizon} {gone} (expires now days limit {d} early) =
    expired-KeepsKey horizon gone now days limit d early
LeaseStep-KeepsKey {horizon} {gone} (deletes_schedule id org {d} is_gone) =
    deleted-KeepsKey horizon gone id org d is_gone
LeaseStep-KeepsKey {horizon} {gone} (writes_other_tables {d} {d'} same _) =
    same_keys-KeepsKey horizon gone d d' same

pub LeaseSteps-KeepsKey :
    {horizon : ℕ} {gone : ℕ → Bool} {d d' : ScheduleDb}
    → LeaseSteps horizon gone d d'
    → KeepsKey horizon gone d d'
LeaseSteps-KeepsKey {horizon} {gone} (no_steps {d}) = same_keys-KeepsKey horizon gone d d refl
LeaseSteps-KeepsKey (then_lease_step steps step) = λ schedule key k spared young found.
    LeaseStep-KeepsKey step schedule key k spared young
      (LeaseSteps-KeepsKey steps schedule key k spared young found)

abbrev pub AddsKey : ℕ → Reservation → ScheduleDb → LeaseOutcome × ScheduleDb → Type 0
AddsKey now q d (out, d') =
    out ≡ lease_accepted q.run_id
    → d'.event_dispatch_keys ≡ reserved_key now q ∷ d.event_dispatch_keys

pub accepted_reservation-AddsKey :
    (now : ℕ) (q : Reservation) (d : ScheduleDb)
    → OnOk (AddsKey now q d) (reserve_event_dispatch_lease now q d)
unfolding reserve_event_dispatch_lease insert_reservation
accepted_reservation-AddsKey now q d = ground arith

pub reserved_key-found :
    (now : ℕ) (q : Reservation) (d : ScheduleDb) (rest : List DispatchKey)
    → d.event_dispatch_keys ≡ reserved_key now q ∷ rest
    → find_key q.schedule_id q.idempotency_key d.event_dispatch_keys ≡ some (reserved_key now q)
unfolding find_key
reserved_key-found now q d rest added =
    rw (added, find_key, ==_refl q.schedule_id, key_eq_refl q.idempotency_key) refl

-- The key answers with the run that it was reserved for.
pub found_key-existing :
    (schedule : ℕ) (key : IdempotencyKey) (k : DispatchKey) (d : ScheduleDb)
    → find_key schedule key d.event_dispatch_keys ≡ some k
    → get_existing_dispatch schedule key d ≡ some k.run_id
unfolding get_existing_dispatch
found_key-existing schedule key k d found = rw (found, get_existing_dispatch) refl

-- When a reservation is accepted at `now`, then after any steps of any workers every reservation with
-- the same schedule and key, whatever its other arguments, answers 'duplicate' with the first run's id
-- and changes nothing, if each deletion by the retention has its cut-off at `now` or before, and the
-- schedule is not among those that were deleted.
pub reserve_event_dispatch_lease-once :
    (now : ℕ) (gone : ℕ → Bool) (q : Reservation) (d d1 d2 : ScheduleDb) (now' : ℕ)
    (q' : Reservation)
    → reserve_event_dispatch_lease now q d ≡ ok (lease_accepted q.run_id, d1)
    → LeaseSteps now gone d1 d2
    → gone q.schedule_id ≡ false
    → q'.schedule_id ≡ q.schedule_id
    → q'.idempotency_key ≡ q.idempotency_key
    → reserve_event_dispatch_lease now' q' d2 ≡ ok (lease_duplicate q.run_id, d2)
unfolding reserve_event_dispatch_lease
reserve_event_dispatch_lease-once now gone q d d1 d2 now' q' accepted_q steps spared same same_key =
    let k = reserved_key now q in
    let added =
      OnOk-returned (AddsKey now q d) (reserve_event_dispatch_lease now q d) accepted_q
        (accepted_reservation-AddsKey now q d) refl in
    let found = reserved_key-found now q d1 d.event_dispatch_keys added in
    let found' =
      LeaseSteps-KeepsKey steps q.schedule_id q.idempotency_key k spared (omega arith) found in
    let kept = found_key-existing q.schedule_id q.idempotency_key k d2 found' in
    let again : get_existing_dispatch q'.schedule_id q'.idempotency_key d2 ≡ some q.run_id =
      rw (same, same_key) kept in
    rw (again, reserve_event_dispatch_lease) refl
