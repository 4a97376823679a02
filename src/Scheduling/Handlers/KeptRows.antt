-- ===== src/Scheduling/Handlers/KeptRows.antt =====
-- What a write for one org leaves of the schedules of the others.
use teardrop.Common.{
  ==_iff, ==_refl, Bool, Bool-cases, Bool-clash, Keyed, Option, Option-cases, [], ap, arith, false,
  if◌then◌else◌, inl, inr, lookup, lookup-remove, lookup-update_key, lookup-upsert, none, refl,
  remove, some, subst, sym, true, upsert, ℕ, ◌==◌, ◌||◌, ◌∙◌, ◌∷◌, ◌≡◌, ◌⊎◌,
}
use teardrop.Scheduling.Schedules.{
  get_scheduled_run, insert_schedule, schedule_check, target_is_there, token_taken,
}
use teardrop.Scheduling.Schedules.Update.{
  ScheduleChange, changed_schedule, clear_target, delete_scheduled_run, is_empty_change,
  update_scheduled_run, without_target,
}
use teardrop.Scheduling.Tables.{ScheduleDb, ScheduledRun, is_there, update_schedule}
use teardrop.Schema.{OnOk}

-- The row is as it was, or the target of its chain is cleared, since that was a schedule of the org
-- that acts and is deleted.
abbrev pub IsKeptRow : (org id : ℕ) → ScheduledRun → ScheduleDb → ScheduleDb → Type 0
IsKeptRow org id r d d' =
    (lookup id d'.scheduled_runs ≡ some r)
    ⊎ ((target : ℕ) × (own : ScheduledRun) × (r.next_trigger_id ≡ some target)
        × (get_scheduled_run target org d ≡ some own)
        × (lookup target d'.scheduled_runs ≡ none)
        × (lookup id d'.scheduled_runs ≡ some (record r { next_trigger_id = none })))

abbrev pub KeepsOthers : ℕ → ScheduleDb → ScheduleDb → Type 0
KeepsOthers org d d' =
    (id : ℕ) (r : ScheduledRun)
    → lookup id d.scheduled_runs ≡ some r
    → (r.org_id == org) ≡ false
    → IsKeptRow org id r d d'

pub same_runs-KeepsOthers :
    (org : ℕ) (d d' : ScheduleDb) → d'.scheduled_runs ≡ d.scheduled_runs → KeepsOthers org d d'
same_runs-KeepsOthers org d d' same id r found apart = inl (rw same found)

pub if_KeepsOthers :
    (org : ℕ) (d : ScheduleDb) (test : Bool) (a b : ℕ × ScheduleDb)
    → KeepsOthers org d a.1
    → KeepsOthers org d b.1
    → KeepsOthers org d (if test then a else b).1
if_KeepsOthers org d true a b keeps_a keeps_b = keeps_a
if_KeepsOthers org d false a b keeps_a keeps_b = keeps_b

-- The row that a handler finds for its org is not the other one.
own_row_apart :
    (k id org : ℕ) (d : ScheduleDb) (own r : ScheduledRun)
    → get_scheduled_run k org d ≡ some own
    → lookup id d.scheduled_runs ≡ some r
    → (r.org_id == org) ≡ false
    → (k == id) ≡ false
unfolding get_scheduled_run
own_row_apart k id org d own r owned found apart = elim (Bool-cases (k == id)) [
  | inr e ↦ e
  | inl e ↦
      let there : lookup k d.scheduled_runs ≡ some r =
        subst (λ i. lookup i d.scheduled_runs ≡ some r) (sym ((==_iff k id).0 e)) found in
      absurd (let gone : none ≡ some own = rw (there, get_scheduled_run, apart) at owned in cc)
]

pub update_schedule-KeepsOthers :
    (k org : ℕ) (f : ScheduledRun → ScheduledRun) (d : ScheduleDb)
    → ((r : ScheduledRun)
        → lookup k d.scheduled_runs ≡ some r
        → (r.org_id == org) ≡ false
        → f r ≡ r)
    → KeepsOthers org d (update_schedule k f d)
update_schedule-KeepsOthers k org f d same id r found apart = elim (Bool-cases (k == id)) [
  | inl e ↦
      let there : lookup k d.scheduled_runs ≡ some r =
        subst (λ i. lookup i d.scheduled_runs ≡ some r) (sym ((==_iff k id).0 e)) found in
      inl (rw (lookup-update_key k id f d.scheduled_runs, e, found) (ap some (same r there apart)))
  | inr e ↦ inl (rw (lookup-update_key k id f d.scheduled_runs, e) found)
]

own_row-KeepsOthers :
    (k org : ℕ) (f : ScheduledRun → ScheduledRun) (d : ScheduleDb) (own : ScheduledRun)
    → get_scheduled_run k org d ≡ some own
    → KeepsOthers org d (update_schedule k f d)
own_row-KeepsOthers k org f d own owned = update_schedule-KeepsOthers k org f d λ r found apart.
    absurd (Bool-clash (==_refl k) (own_row_apart k k org d own r owned found apart))

new_row-KeepsOthers :
    (k org : ℕ) (row : ScheduledRun) (d : ScheduleDb)
    → is_there (lookup k d.scheduled_runs) ≡ false
    → KeepsOthers org d (record d { scheduled_runs = upsert k row d.scheduled_runs })
new_row-KeepsOthers k org row d fresh id r found apart = elim (Bool-cases (k == id)) [
  | inl e ↦
      let there : is_there (lookup k d.scheduled_runs) ≡ true =
        subst (λ i. is_there (lookup i d.scheduled_runs) ≡ true) (sym ((==_iff k id).0 e))
          (rw found refl) in
      absurd (Bool-clash there fresh)
  | inr e ↦ inl (rw (lookup-upsert k id row d.scheduled_runs, e) found)
]

pub insert_schedule-KeepsOthers :
    (k org : ℕ) (row : ScheduledRun) (d : ScheduleDb)
    → OnOk (λ out. KeepsOthers org d out.1) (insert_schedule k row d)
unfolding insert_schedule
insert_schedule-KeepsOthers k org row d = elim (Bool-cases (schedule_check row)) [
  | inr e ↦ rw e tt
  | inl e ↦
      elim (Bool-cases (is_there (lookup k d.scheduled_runs) || token_taken row.trigger_token d)) [
        | inl e2 ↦ rw (e, e2) tt
        | inr e2 ↦ elim (Bool-cases (target_is_there row.next_trigger_id d)) [
          | inr e3 ↦ rw (e, e2, e3) tt
          | inl e3 ↦ rw (e, e2, e3) (new_row-KeepsOthers k org row d (ground (arith, e2)))
        ]
      ]
]

some_row_inj : (s r : ScheduledRun) → some s ≡ some r → s ≡ r
some_row_inj s r same = cc

clear_target-lookup :
    (k id : ℕ) (t : Keyed ScheduledRun) (r : ScheduledRun)
    → lookup id t ≡ some r
    → lookup id (clear_target k t) ≡ some (without_target k r)
clear_target-lookup k id [] r found = cc
clear_target-lookup k id ((j, s) ∷ t) r found = elim (Bool-cases (j == id)) [
  | inl e ↦
      let it : some s ≡ some r = rw e at found in
      rw e (ap (λ x. some (without_target k x)) (some_row_inj s r it))
  | inr e ↦ rw e (clear_target-lookup k id t r (rw e at found))
]

clear_target-none :
    (k id : ℕ) (t : Keyed ScheduledRun) → lookup id t ≡ none → lookup id (clear_target k t) ≡ none
clear_target-none k id [] gone = refl
clear_target-none k id ((j, s) ∷ t) gone = elim (Bool-cases (j == id)) [
  | inl e ↦ cc (rw e at gone)
  | inr e ↦ rw e (clear_target-none k id t (rw e at gone))
]

cleared_target :
    (k : ℕ) (r : ScheduledRun) (target : Option ℕ)
    → let r' : ScheduledRun = elim target [
      | none ↦ r
      | some t ↦ if t == k then record r { next_trigger_id = none } else r
    ] in
      (r' ≡ r) ⊎ ((r' ≡ record r { next_trigger_id = none }) × (target ≡ some k))
cleared_target k r none = inl refl
cleared_target k r (some t) = elim (Bool-cases (t == k)) [
  | inl e ↦ rw e (inr (refl, ap some ((==_iff t k).0 e)))
  | inr e ↦ rw e (inl refl)
]

pub delete_scheduled_run-KeepsOthers :
    (k org : ℕ) (d : ScheduleDb) → KeepsOthers org d (delete_scheduled_run k org d).1
unfolding delete_scheduled_run
delete_scheduled_run-KeepsOthers k org d id r found apart =
    elim (Option-cases (get_scheduled_run k org d)) [
      | inl e ↦ rw (e, delete_scheduled_run) (inl found)
      | inr (own, e) ↦
          let left : lookup id (remove k d.scheduled_runs) ≡ some r =
            rw (lookup-remove k id d.scheduled_runs, own_row_apart k id org d own r e found apart)
              found in
          let cleared = clear_target-lookup k id (remove k d.scheduled_runs) r left in
          let gone : lookup k (remove k d.scheduled_runs) ≡ none =
            rw (lookup-remove k k d.scheduled_runs, ==_refl k) refl in
          let deleted = clear_target-none k k (remove k d.scheduled_runs) gone in
          rw (e, delete_scheduled_run)
            (elim (cleared_target k r r.next_trigger_id) [
              | inl same ↦ inl (cleared ∙ ap some same)
              | inr (emptied, aimed) ↦ inr (k, own, aimed, e, deleted, cleared ∙ ap some emptied)
            ])
    ]

pub update_scheduled_run-KeepsOthers :
    (now k org : ℕ) (c : ScheduleChange) (d : ScheduleDb)
    → OnOk (λ out. KeepsOthers org d out.1) (update_scheduled_run now k org c d)
unfolding update_scheduled_run
update_scheduled_run-KeepsOthers now k org c d =
    let same = same_runs-KeepsOthers org d d refl in
    elim (Option-cases (get_scheduled_run k org d)) [
      | inl e ↦ rw (e, update_scheduled_run) same
      | inr (own, e) ↦
          let r' = changed_schedule now c own in
          let kept = own_row-KeepsOthers k org (λ _. r') d own e in
          rw (e, update_scheduled_run)
            (elim (Bool-cases (is_empty_change c)) [
              | inl e2 ↦ rw e2 same
              | inr e2 ↦ elim (Bool-cases (schedule_check r')) [
                | inr e3 ↦ rw (e2, e3) tt
                | inl e3 ↦ elim (Bool-cases (target_is_there r'.next_trigger_id d)) [
                  | inr e4 ↦ rw (e2, e3, e4) tt
                  | inl e4 ↦ rw (e2, e3, e4) kept
                ]
              ]
            ])
    ]
