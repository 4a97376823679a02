-- ===== src/Scheduling/Dispatch/Kept.antt =====
-- What each operation on the leases keeps of the rows.
use teardrop.Common.{
  ==_iff, All, Bool-cases, Bool-clash, Keyed, Unique, Unique-update_key, Unique-upsert, [], ap,
  arith, false, inl, inr, lookup, lookup-update_key, lookup-upsert, refl, selected_rows_found, some,
  subst, sym, true, unselected_row, upsert, ℕ, ◌==◌, ◌∙◌, ◌∷◌, ◌≡◌,
}
use teardrop.Scheduling.Dispatch.{
  Reservation, finds_lease, insert_reservation, is_live, is_renewable, is_startable, renewed_lease,
  reserve_event_dispatch_lease, reserved_lease, started_lease,
}
use teardrop.Scheduling.Dispatch.Settle.{
  ensure_result, expired_leases, expires_before, fail_with, finish_event_dispatch_lease,
  finished_lease, is_expired_lease, is_finishable, recover_each, recovered_with, terminal_lease,
}
use teardrop.Scheduling.Dispatch.Steps.{KeepsLeases, ensure_result-Kept}
use teardrop.Scheduling.Tables.{
  DispatchLease, ErrorText, RunResult, RunStatus, ScheduleDb, is_there, recovery_timed_out,
  terminal_error, terminal_status, update_lease,
}
use teardrop.Schema.{OnOk, OnOk->>=, OnOk-map}

-- What a step leaves of the leases: the primary key, and every lease that is terminal.
abbrev pub LeavesSettled : ScheduleDb → ScheduleDb → Type 0
LeavesSettled d d' =
    (id : ℕ) (l : DispatchLease)
    → lookup id d.event_dispatch_leases ≡ some l
    → is_live l ≡ false
    → lookup id d'.event_dispatch_leases ≡ some l

abbrev pub KeepsSettled : ScheduleDb → ScheduleDb → Type 0
KeepsSettled d d' = Unique d'.event_dispatch_leases × LeavesSettled d d'

-- An UPDATE that leaves the terminal row it may find.
pub update_lease-Keeps :
    (run_id : ℕ) (f : DispatchLease → DispatchLease) (d : ScheduleDb)
    → Unique d.event_dispatch_leases
    → ((l : DispatchLease)
        → lookup run_id d.event_dispatch_leases ≡ some l
        → is_live l ≡ false
        → f l ≡ l)
    → KeepsSettled d (update_lease run_id f d)
update_lease-Keeps run_id f d unique same = (
  Unique-update_key run_id f d.event_dispatch_leases unique,
  λ id l found settled_l. elim (Bool-cases (run_id == id)) [
    | inl e ↦
        let it : run_id ≡ id = (==_iff run_id id).0 e in
        let there : lookup run_id d.event_dispatch_leases ≡ some l =
          subst (λ i. lookup i d.event_dispatch_leases ≡ some l) (sym it) found in
        rw (lookup-update_key run_id id f d.event_dispatch_leases, e, found)
          (ap some (same l there settled_l))
    | inr e ↦ rw (lookup-update_key run_id id f d.event_dispatch_leases, e) found
  ],
)

pub started_lease-same :
    (now owner seconds : ℕ) (l : DispatchLease)
    → is_live l ≡ false
    → started_lease now owner seconds l ≡ l
unfolding started_lease is_startable is_live
started_lease-same now owner seconds l h = ground arith

pub renewed_lease-same :
    (now owner seconds : ℕ) (l : DispatchLease)
    → is_live l ≡ false
    → renewed_lease now owner seconds l ≡ l
unfolding renewed_lease is_renewable is_live
renewed_lease-same now owner seconds l h = ground arith

finished_lease-same :
    (now owner : ℕ) (status : RunStatus) (l : DispatchLease)
    → is_live l ≡ false
    → finished_lease now owner status l ≡ l
unfolding finished_lease is_finishable
finished_lease-same now owner status l h = ground (arith, h)

pub KeepsSettled-same :
    (d e : ScheduleDb)
    → Unique d.event_dispatch_leases
    → e.event_dispatch_leases ≡ d.event_dispatch_leases
    → KeepsSettled d e
KeepsSettled-same d e unique same = rw same (unique, λ id l found settled_l. found)

fresh_lease-Kept :
    (k : ℕ) (new : DispatchLease) (t : Keyed DispatchLease)
    → is_there (lookup k t) ≡ false
    → (id : ℕ) (l : DispatchLease) → lookup id t ≡ some l
    → lookup id (upsert k new t) ≡ some l
fresh_lease-Kept k new t fresh id l found = elim (Bool-cases (k == id)) [
  | inl e ↦
      let it : k ≡ id = (==_iff k id).0 e in
      absurd (
        let is_taken : is_there (lookup k t) ≡ true =
          subst (λ i. is_there (lookup i t) ≡ true) (sym it) (rw found refl) in
        Bool-clash is_taken fresh)
  | inr e ↦ rw (lookup-upsert k id new t, e) found
]

pub reserve_event_dispatch_lease-Keeps :
    (now : ℕ) (q : Reservation) (d : ScheduleDb)
    → Unique d.event_dispatch_leases
    → OnOk (λ out. KeepsSettled d out.1) (reserve_event_dispatch_lease now q d)
unfolding reserve_event_dispatch_lease insert_reservation
reserve_event_dispatch_lease-Keeps now q d unique =
    let t = d.event_dispatch_leases in
    ground (
      arith,
      Unique-upsert q.run_id (reserved_lease now q) t unique,
      fresh_lease-Kept q.run_id (reserved_lease now q) t,
    )

pub finish_event_dispatch_lease-Keeps :
    (now schedule org run_id owner : ℕ) (r : RunResult) (d : ScheduleDb)
    → Unique d.event_dispatch_leases
    → KeepsSettled d (finish_event_dispatch_lease now schedule org run_id owner r d).1
unfolding finish_event_dispatch_lease
finish_event_dispatch_lease-Keeps now schedule org run_id owner r d unique = ground (
  arith,
  update_lease-Keeps run_id (finished_lease now owner r.status) d unique
      (λ l _. finished_lease-same now owner r.status l),
)

pub fail_with-Keeps :
    (now schedule org run_id owner : ℕ) (error : ErrorText) (d e : ScheduleDb) (r : RunResult)
    → Unique d.event_dispatch_leases
    → finds_lease run_id (is_finishable owner) d ≡ true
    → KeepsLeases d e
    → KeepsSettled d (fail_with now schedule org run_id error (r, e)).1
unfolding fail_with is_finishable
fail_with-Keeps now schedule org run_id owner error d e r unique live (same, _) =
    let f = terminal_lease now (terminal_status r.status) (terminal_error r.status error) in
    let kept = update_lease-Keeps run_id f d unique (λ l found settled_l. absurd (
      let g : is_finishable owner l ≡ true = rw (found, finds_lease) at live in
      ground (arith, g, settled_l))) in
    rw same kept

abbrev pub HasNot : ℕ → Keyed DispatchLease → Type 0
HasNot id rows = All (λ row. (row.0 == id) ≡ false) rows

-- The recovery touches the rows that it was given only.
pub recover_each-Keeps :
    (now limit : ℕ) (rows : Keyed DispatchLease) (d : ScheduleDb)
    → Unique d.event_dispatch_leases
    → OnOk
        (λ d'.
          Unique d'.event_dispatch_leases
          × ((id : ℕ)
              → HasNot id rows
              → lookup id d'.event_dispatch_leases ≡ lookup id d.event_dispatch_leases))
        (recover_each now limit rows d)
unfolding recover_each recovered_with
recover_each-Keeps now limit [] d unique = (unique, λ id absent_id. refl)
recover_each-Keeps now limit ((run_id, l) ∷ rest) d unique =
    OnOk->>= (λ out. KeepsLeases d out.1) _
      (ensure_result now l.schedule_id l.org_id run_id limit recovery_timed_out d)
      (λ answered. recover_each now limit rest (recovered_with now (run_id, l) answered))
      (ensure_result-Kept now l.schedule_id l.org_id run_id limit recovery_timed_out d)
      λ (r, e) (same, _).
        let f =
          terminal_lease now (terminal_status r.status)
            (terminal_error r.status recovery_timed_out) in
        let e' = recovered_with now (run_id, l) (r, e) in
        let unique_e : Unique e'.event_dispatch_leases =
          rw same (Unique-update_key run_id f d.event_dispatch_leases unique) in
        let kept : (id : ℕ)
            → (run_id == id) ≡ false
            → lookup id e'.event_dispatch_leases ≡ lookup id d.event_dispatch_leases =
          λ id apart.
            rw (same, lookup-update_key run_id id f d.event_dispatch_leases, apart) refl in
        OnOk-map _ _ (recover_each now limit rest e')
          (λ d' (unique', keep).
            (unique', λ id (apart, absent_id). keep id absent_id ∙ kept id apart))
          (recover_each-Keeps now limit rest e' unique_e)

-- The rows that a recovery takes are found by their keys, and are live.
pub expired_leases-Live :
    (now batch : ℕ) (d : ScheduleDb)
    → Unique d.event_dispatch_leases
    → All
        (λ row.
          (lookup row.0 d.event_dispatch_leases ≡ some row.1) × (is_expired_lease now row ≡ true))
        (expired_leases now batch d)
unfolding expired_leases
expired_leases-Live now batch d unique =
    selected_rows_found expires_before (is_expired_lease now) batch d.event_dispatch_leases unique

-- A lease that is not expired is not among them.
pub unexpired-HasNot :
    (now id : ℕ) (l : DispatchLease) (d : ScheduleDb) (rows : Keyed DispatchLease)
    → lookup id d.event_dispatch_leases ≡ some l
    → is_expired_lease now (id, l) ≡ false
    → All
        (λ row.
          (lookup row.0 d.event_dispatch_leases ≡ some row.1) × (is_expired_lease now row ≡ true))
        rows
    → HasNot id rows
unexpired-HasNot now id l d rows found unexpired =
    unselected_row (is_expired_lease now) id l d.event_dispatch_leases rows found unexpired
