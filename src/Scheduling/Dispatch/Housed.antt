-- ===== src/Scheduling/Dispatch/Housed.antt =====
-- When the result of a lost run can be made sure of, and what that leaves.
use teardrop.Common.{
  ==_iff, Bool-cases, Keyed, List, Option-cases, [], arith, false, find?, inl, inr, lookup,
  lookup-update_key, none, refl, some, subst, sym, true, update_key, ℕ, ◌&&◌, ◌==◌, ◌∙◌, ◌∷◌, ◌≡◌,
}
use teardrop.Scheduling.Dispatch.{is_live}
use teardrop.Scheduling.Dispatch.Settle.{
  ensure_result, failed_result, find_result, get_scheduled_run_result, terminal_lease,
}
use teardrop.Scheduling.Marks.{failed_schedule, mark_scheduled_run_failed}
use teardrop.Scheduling.Tables.{
  DispatchLease, ErrorText, RunResult, RunStatus, ScheduleDb, ScheduledRun, is_there, run_completed,
  run_failed, run_skipped, run_timeout, terminal_status,
}
use teardrop.Schema.{OnOk, ok}

abbrev pub IsFinal : ℕ → ScheduleDb → Type 0
IsFinal id d =
    (l : DispatchLease) × (lookup id d.event_dispatch_leases ≡ some l) × (is_live l ≡ false)

-- A lease belongs to a schedule that is there, and a result of its run has the org of the lease.
abbrev pub BelongsTo : ℕ → (schedule org : ℕ) → ScheduleDb → Type 0
BelongsTo run_id schedule org d =
    (is_there (lookup schedule d.scheduled_runs) ≡ true)
    × ((r : RunResult) → find_result schedule run_id d ≡ some r → r.org_id ≡ org)

abbrev pub IsHoused : ScheduleDb → Type 0
IsHoused d =
    (id : ℕ) (l : DispatchLease)
    → lookup id d.event_dispatch_leases ≡ some l
    → BelongsTo id l.schedule_id l.org_id d

pub terminal_status_final :
    (now : ℕ) (status : RunStatus) (error : ErrorText) (l : DispatchLease)
    → is_live (terminal_lease now (terminal_status status) error l) ≡ false
unfolding terminal_lease is_live
terminal_status_final now run_completed error l = refl
terminal_status_final now run_failed error l = refl
terminal_status_final now run_timeout error l = refl
terminal_status_final now run_skipped error l = refl

-- The question with the org finds the result of the run.
find_result-org :
    (schedule org run_id : ℕ) (rows : List RunResult) (r : RunResult)
    → find? (λ x. x.schedule_id == schedule && x.run_id == run_id) rows ≡ some r
    → r.org_id ≡ org
    → find? (λ x. x.schedule_id == schedule && (x.org_id == org && x.run_id == run_id)) rows
      ≡ some r
find_result-org schedule org run_id [] r found same = cc
find_result-org schedule org run_id (x ∷ rows) r found same =
    elim (Bool-cases (x.schedule_id == schedule && x.run_id == run_id)) [
      | inl e ↦
          let it : some x ≡ some r = rw e at found in
          let it_is : x ≡ r = cc in
          let same_x : (x.org_id == org) ≡ true =
            (==_iff x.org_id org).1 (subst (λ y. y.org_id ≡ org) (sym it_is) same) in
          ground (arith, e, same_x, it)
      | inr e ↦
          let there = find_result-org schedule org run_id rows r (rw e at found) same in
          ground (arith, e, there)
    ]

pub ensure_result-returns :
    (now schedule org run_id limit : ℕ) (error : ErrorText) (d : ScheduleDb)
    → BelongsTo run_id schedule org d
    → (out : RunResult × ScheduleDb) × (ensure_result now schedule org run_id limit error d
        ≡ ok out)
unfolding ensure_result get_scheduled_run_result find_result
ensure_result-returns now schedule org run_id limit error d (there, owned) =
    elim (Option-cases (get_scheduled_run_result schedule org run_id d)) [
      | inr (r, e) ↦ ((r, d), rw (e, ensure_result) refl)
      | inl e ↦ elim (Option-cases (find_result schedule run_id d)) [
        | inl free ↦
            let r = failed_result now schedule org run_id error in
            (
              (
                r,
                mark_scheduled_run_failed now limit schedule
                    (record d { scheduled_run_results = r ∷ d.scheduled_run_results }),
              ),
              rw (e, ensure_result, free, there) refl,
            )
        | inr (r, found) ↦
            let with_org : get_scheduled_run_result schedule org run_id d ≡ some r =
              find_result-org schedule org run_id d.scheduled_run_results r found (owned r found) in
            absurd (let clash : none ≡ some r = sym e ∙ with_org in cc)
      ]
    ]

is_there_update :
    (id k : ℕ) (f : ScheduledRun → ScheduledRun) (t : Keyed ScheduledRun)
    → is_there (lookup id t) ≡ true
    → is_there (lookup id (update_key k f t)) ≡ true
is_there_update id k f t h = elim (Option-cases (lookup id t)) [
  | inl e ↦ absurd (let gone : false ≡ true = rw e at h in cc)
  | inr (r, e) ↦ elim (Bool-cases (k == id)) [
    | inl same ↦ rw (lookup-update_key k id f t, same, e) refl
    | inr apart ↦ rw (lookup-update_key k id f t, apart, e) refl
  ]
]

added_result-org :
    (schedule run_id org : ℕ) (x r : RunResult) (rows : List RunResult)
    → find? (λ y. y.schedule_id == schedule && y.run_id == run_id) (x ∷ rows) ≡ some r
    → ((x.schedule_id == schedule && x.run_id == run_id) ≡ true → x.org_id ≡ org)
    → ((y : RunResult)
        → find? (λ y. y.schedule_id == schedule && y.run_id == run_id) rows ≡ some y
        → y.org_id ≡ org)
    → r.org_id ≡ org
added_result-org schedule run_id org x r rows found added old =
    elim (Bool-cases (x.schedule_id == schedule && x.run_id == run_id)) [
      | inl e ↦
          let it : some x ≡ some r = rw e at found in
          let it_is : x ≡ r = cc in subst (λ y. y.org_id ≡ org) it_is (added e)
      | inr e ↦ old r (rw e at found)
    ]

-- A result that is made sure of leaves every other lease where it belongs.
pub ensure_result-BelongsTo :
    (now schedule org run_id limit : ℕ) (error : ErrorText) (d : ScheduleDb)
    (run_id' schedule' org' : ℕ)
    → BelongsTo run_id' schedule' org' d
    → ((run_id == run_id') ≡ true → org ≡ org')
    → OnOk
        (λ out. BelongsTo run_id' schedule' org' out.1)
        (ensure_result now schedule org run_id limit error d)
unfolding ensure_result find_result mark_scheduled_run_failed
ensure_result-BelongsTo now schedule org run_id limit error d run_id' schedule' org' (there, owned)
      same =
    elim (Option-cases (get_scheduled_run_result schedule org run_id d)) [
      | inr (r, e) ↦ rw (e, ensure_result) (there, owned)
      | inl e ↦ elim (Bool-cases (is_there (find_result schedule run_id d))) [
        | inl clash ↦ rw (e, ensure_result, clash) tt
        | inr free ↦ elim (Bool-cases (is_there (lookup schedule d.scheduled_runs))) [
          | inr gone ↦ rw (e, ensure_result, free, gone) tt
          | inl there_too ↦
              rw (e, ensure_result, free, there_too)
                (
                  is_there_update schedule' schedule (failed_schedule now limit) d.scheduled_runs
                      there,
                  λ r found.
                      added_result-org schedule' run_id' org'
                        (failed_result now schedule org run_id error) r d.scheduled_run_results
                        found (λ it. same (ground (arith, it))) owned,
                )
        ]
      ]
    ]
