-- ===== src/Scheduling/Dispatch/Recovered.antt =====
-- The state after the recovery has settled one row.
use teardrop.Common.{
  ==_iff, ==_refl, All, All-map, Bool-cases, Keyed, Option-cases, ap, inl, inr, lookup,
  lookup-update_key, none, refl, some, subst, sym, update_key, ℕ, ◌==◌, ◌∙◌, ◌≡◌,
}
use teardrop.Scheduling.Dispatch.Housed.{
  BelongsTo, IsFinal, IsHoused, ensure_result-BelongsTo, terminal_status_final,
}
use teardrop.Scheduling.Dispatch.Settle.{ensure_result, find_result, recovered_with, terminal_lease}
use teardrop.Scheduling.Dispatch.Steps.{KeepsLeases, ensure_result-Kept}
use teardrop.Scheduling.Tables.{
  DispatchLease, RunResult, ScheduleDb, recovery_timed_out, terminal_error, terminal_status,
}
use teardrop.Schema.{OnOk-returned, ok}

-- The rows that a recovery still has to settle: each finds its lease.
abbrev pub HasLeases : Keyed DispatchLease → ScheduleDb → Type 0
HasLeases rows d =
    All
      (λ row.
        (m : DispatchLease) × (lookup row.0 d.event_dispatch_leases ≡ some m)
        × (m.schedule_id ≡ row.1.schedule_id)
        × (m.org_id ≡ row.1.org_id))
      rows

-- One row of the recovery: its lease is terminal, the other leases are as they were, and all are
-- where they belong.
pub recovered_with-IsFinal :
    (now run_id : ℕ) (l m : DispatchLease) (r : RunResult) (d : ScheduleDb)
    → lookup run_id d.event_dispatch_leases ≡ some m
    → IsFinal run_id (recovered_with now (run_id, l) (r, d))
unfolding recovered_with
recovered_with-IsFinal now run_id l m r d found =
    let error = terminal_error r.status recovery_timed_out in
    let f = terminal_lease now (terminal_status r.status) error in
    (
      f m,
      rw (lookup-update_key run_id run_id f d.event_dispatch_leases, ==_refl run_id, found) refl,
      terminal_status_final now r.status error m,
    )

abbrev pub SameHome : DispatchLease → DispatchLease → Type 0
SameHome l m = (m.schedule_id ≡ l.schedule_id) × (m.org_id ≡ l.org_id)

-- An UPDATE that keeps the schedule and the org of its row.
module _ (k : ℕ) (f : DispatchLease → DispatchLease)
    (same : (l : DispatchLease) → SameHome l (f l)) where
  updated_lease-SameHome :
      (id : ℕ) (t : Keyed DispatchLease) {l : DispatchLease}
      → lookup id (update_key k f t) ≡ some l
      → (m : DispatchLease) × (lookup id t ≡ some m) × SameHome m l
  updated_lease-SameHome id t {l} found = elim (Option-cases (lookup id t)) [
    | inl e ↦ elim (Bool-cases (k == id)) [
      | inl it ↦
          absurd (let gone : none ≡ some l = rw (lookup-update_key k id f t, it, e) at found in cc)
      | inr apart ↦
          absurd
            (let gone : none ≡ some l = rw (lookup-update_key k id f t, apart, e) at found in cc)
    ]
    | inr (m, e) ↦ elim (Bool-cases (k == id)) [
      | inl it ↦
          let here_it : some (f m) ≡ some l = rw (lookup-update_key k id f t, it, e) at found in
          let l_is : f m ≡ l = cc in (m, e, subst (λ x. SameHome m x) l_is (same m))
      | inr apart ↦
          let there : some m ≡ some l = rw (lookup-update_key k id f t, apart, e) at found in
          let l_is : m ≡ l = cc in (m, e, subst (λ x. SameHome m x) l_is (refl, refl))
    ]
  ]

  SameHome-updated_lease :
      (id : ℕ) (t : Keyed DispatchLease) (m : DispatchLease)
      → lookup id t ≡ some m
      → (l : DispatchLease) × (lookup id (update_key k f t) ≡ some l) × SameHome m l
  SameHome-updated_lease id t m e = elim (Bool-cases (k == id)) [
    | inl it ↦ (f m, rw (lookup-update_key k id f t, it, e) refl, same m)
    | inr apart ↦ (m, rw (lookup-update_key k id f t, apart, e) refl, (refl, refl))
  ]

some_inj : {A : Type 0} (a b : A) → some a ≡ some b → a ≡ b
some_inj a b same = cc

pub moved :
    (run_id : ℕ) (d : ScheduleDb) {schedule schedule' org org' : ℕ}
    → schedule ≡ schedule'
    → org ≡ org'
    → BelongsTo run_id schedule org d
    → BelongsTo run_id schedule' org' d
moved run_id d {schedule' = schedule'} {org = org} same_schedule same_org belongs =
    subst (λ o. BelongsTo run_id schedule' o d) same_org
      (subst (λ i. BelongsTo run_id i org d) same_schedule belongs)

-- The state after one row.
pub recovered_with-IsHoused :
    (now run_id limit : ℕ) (l m : DispatchLease) (r : RunResult) (d e : ScheduleDb)
    → ensure_result now l.schedule_id l.org_id run_id limit recovery_timed_out d ≡ ok (r, e)
    → lookup run_id d.event_dispatch_leases ≡ some m
    → SameHome l m
    → IsHoused d
    → IsHoused (recovered_with now (run_id, l) (r, e))
unfolding recovered_with find_result
recovered_with-IsHoused now run_id limit l m r d e made found (_, org_m) housed id l' found' =
    let f =
      terminal_lease now (terminal_status r.status) (terminal_error r.status recovery_timed_out) in
    let ensured = ensure_result now l.schedule_id l.org_id run_id limit recovery_timed_out d in
    let kept : KeepsLeases d e =
      OnOk-returned (λ out. KeepsLeases d out.1) ensured made
        (ensure_result-Kept now l.schedule_id l.org_id run_id limit recovery_timed_out d) in
    let found'' : lookup id (update_key run_id f d.event_dispatch_leases) ≡ some l' =
      subst (λ t. lookup id (update_key run_id f t) ≡ some l') kept.0 found' in
    let (l0, found0, (schedule0, org0)) =
      updated_lease-SameHome run_id f (λ x. (refl, refl)) id d.event_dispatch_leases found'' in
    let belongs : BelongsTo id l'.schedule_id l'.org_id d =
      moved id d (sym schedule0) (sym org0) (housed id l0 found0) in
    OnOk-returned (λ out. BelongsTo id l'.schedule_id l'.org_id out.1) ensured made
      (ensure_result-BelongsTo now l.schedule_id l.org_id run_id limit recovery_timed_out d id
        l'.schedule_id l'.org_id belongs
        λ it.
          let there : lookup id d.event_dispatch_leases ≡ some m =
            subst (λ i. lookup i d.event_dispatch_leases ≡ some m) ((==_iff run_id id).0 it)
              found in
          let m_is : m ≡ l0 = some_inj m l0 (sym there ∙ found0) in
          sym org_m ∙ ap (λ x. x.org_id) m_is ∙ sym org0)

pub recovered_with-HasLeases :
    (now run_id : ℕ) (l : DispatchLease) (r : RunResult) (d e : ScheduleDb)
    (rows : Keyed DispatchLease)
    → e.event_dispatch_leases ≡ d.event_dispatch_leases
    → HasLeases rows d
    → HasLeases rows (recovered_with now (run_id, l) (r, e))
unfolding recovered_with
recovered_with-HasLeases now run_id l r d e rows same =
    let f =
      terminal_lease now (terminal_status r.status) (terminal_error r.status recovery_timed_out) in
    All-map _ _ rows λ (id, l0) (m, found, schedule_m, org_m).
      let (m', found', (schedule', org')) =
        SameHome-updated_lease run_id f (λ x. (refl, refl)) id d.event_dispatch_leases m found in
      (m', rw same found', schedule' ∙ schedule_m, org' ∙ org_m)

pub recovered_with-IsFinal_kept :
    (now run_id id : ℕ) (l : DispatchLease) (r : RunResult) (d e : ScheduleDb)
    → e.event_dispatch_leases ≡ d.event_dispatch_leases
    → IsFinal id d
    → IsFinal id (recovered_with now (run_id, l) (r, e))
unfolding recovered_with
recovered_with-IsFinal_kept now run_id id l r d e same (m, found, final_m) =
    let error = terminal_error r.status recovery_timed_out in
    let f = terminal_lease now (terminal_status r.status) error in
    elim (Bool-cases (run_id == id)) [
      | inl it ↦ (
        f m,
        rw (same, lookup-update_key run_id id f d.event_dispatch_leases, it, found) refl,
        terminal_status_final now r.status error m,
      )
      | inr apart ↦ (
        m,
        rw (same, lookup-update_key run_id id f d.event_dispatch_leases, apart) found,
        final_m,
      )
    ]
