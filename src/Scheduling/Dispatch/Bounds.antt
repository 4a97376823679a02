-- ===== src/Scheduling/Dispatch/Bounds.antt =====
-- How many leases are active.
use teardrop.Common.{
  ==_refl, Bool, Bool-cases, Keyed, Option, Option-cases, arith, count_where, count_where-append,
  false, inl, inr, leb, lookup, lookup-upsert, none, refl, some, upsert, ℕ, ◌||◌, ◌≡◌, ◌≤◌, ◌⊎◌,
}
use teardrop.Scheduling.Dispatch.{
  LeaseOutcome, Reservation, get_existing_dispatch, hop_taken, insert_reservation, is_active_lease,
  is_active_of_org, lease_accepted, lineage_check, reserve_event_dispatch_lease, reserved_lease,
}
use teardrop.Scheduling.Tables.{DispatchLease, ScheduleDb, is_there}
use teardrop.Schema.{OnOk, OnOk-returned, ok}

abbrev pub IsWithin : ℕ → Reservation → ScheduleDb → LeaseOutcome × ScheduleDb → Type 0
IsWithin now q d (out, d') =
    (d' ≡ d)
    ⊎ ((out ≡ lease_accepted q.run_id)
        × (lookup q.run_id d'.event_dispatch_leases ≡ some (reserved_lease now q))
        × (count_where (is_active_lease now) d'.event_dispatch_leases ≤ q.global_limit)
        × (count_where (is_active_of_org now q.org_id) d'.event_dispatch_leases ≤ q.org_limit))

absent_lookup : {A : Type 0} (o : Option A) → is_there o ≡ false → o ≡ none
absent_lookup none h = refl
absent_lookup (some x) h = cc

one_more :
    (p : ℕ × DispatchLease → Bool) (k limit : ℕ) (new : DispatchLease) (t : Keyed DispatchLease)
    → lookup k t ≡ none
    → leb limit (count_where p t) ≡ false
    → count_where p (upsert k new t) ≤ limit
one_more p k limit new t fresh below = ground (arith, below, count_where-append p k new t fresh)

insert_reservation-IsWithin :
    (now : ℕ) (q : Reservation) (d : ScheduleDb)
    → leb q.global_limit (count_where (is_active_lease now) d.event_dispatch_leases) ≡ false
    → leb q.org_limit (count_where (is_active_of_org now q.org_id) d.event_dispatch_leases) ≡ false
    → OnOk (IsWithin now q d) (insert_reservation now q d)
unfolding insert_reservation
insert_reservation-IsWithin now q d below below_org =
    let t = d.event_dispatch_leases in
    elim (Bool-cases (is_there (lookup q.schedule_id d.scheduled_runs))) [
      | inr e ↦ rw e tt
      | inl e ↦ elim (Bool-cases (lineage_check q)) [
        | inr e2 ↦ rw (e, e2) tt
        | inl e2 ↦ elim (Bool-cases (hop_taken q d || is_there (lookup q.run_id t))) [
          | inl e3 ↦ rw (e, e2, e3) tt
          | inr e3 ↦
              let fresh : lookup q.run_id t ≡ none =
                absent_lookup (lookup q.run_id t) (ground (arith, e3)) in
              rw (e, e2, e3)
                (inr (
                  refl,
                  rw (lookup-upsert q.run_id q.run_id (reserved_lease now q) t, ==_refl q.run_id)
                      refl,
                  one_more (is_active_lease now) q.run_id q.global_limit (reserved_lease now q) t
                      fresh below,
                  one_more (is_active_of_org now q.org_id) q.run_id q.org_limit
                      (reserved_lease now q) t fresh below_org,
                ))
        ]
      ]
    ]

reserve-IsWithin :
    (now : ℕ) (q : Reservation) (d : ScheduleDb)
    → OnOk (IsWithin now q d) (reserve_event_dispatch_lease now q d)
unfolding reserve_event_dispatch_lease
reserve-IsWithin now q d =
    elim (Option-cases (get_existing_dispatch q.schedule_id q.idempotency_key d)) [
      | inr (run_id, e) ↦ rw (e, reserve_event_dispatch_lease) (inl refl)
      | inl e ↦
          elim (Bool-cases
            (leb q.global_limit (count_where (is_active_lease now) d.event_dispatch_leases))) [
              | inl e2 ↦ rw (e, reserve_event_dispatch_lease, e2) (inl refl)
              | inr e2 ↦
                  elim (Bool-cases (
                    leb q.org_limit
                      (count_where (is_active_of_org now q.org_id) d.event_dispatch_leases))) [
                        | inl e3 ↦ rw (e, reserve_event_dispatch_lease, e2, e3) (inl refl)
                        | inr e3 ↦
                            rw (e, reserve_event_dispatch_lease, e2, e3)
                              (insert_reservation-IsWithin now q d e2 e3)
                      ]
            ]
    ]

-- A reservation that returns has left the state as it was, or is accepted: then its run has a lease
-- in the state 'reserved', at most `global_limit` leases are active, and at most `org_limit` of them
-- belong to the org.
pub reserve_event_dispatch_lease-within :
    (now : ℕ) (q : Reservation) (d d' : ScheduleDb) (out : LeaseOutcome)
    → reserve_event_dispatch_lease now q d ≡ ok (out, d')
    → (d' ≡ d)
      ⊎ ((out ≡ lease_accepted q.run_id)
          × (lookup q.run_id d'.event_dispatch_leases ≡ some (reserved_lease now q))
          × (count_where (is_active_lease now) d'.event_dispatch_leases ≤ q.global_limit)
          × (count_where (is_active_of_org now q.org_id) d'.event_dispatch_leases ≤ q.org_limit))
reserve_event_dispatch_lease-within now q d d' out h =
    OnOk-returned (IsWithin now q d) (reserve_event_dispatch_lease now q d) h
      (reserve-IsWithin now q d)
