-- ===== src/Scheduling/Claim/Disjoint.antt =====
-- A schedule that is claimed is not claimed again before its interval is over, while nothing moves its
-- next run.
use teardrop.Common.{
  All, Bool, Bool-cases, Keyed, Unique, Unique-update_key, [], ap, arith, exists, false,
  if◌then◌else◌, inl, inr, length, length-take-min, lookup, lookup-update_key, refl, select,
  selected_rows_found, some, sort_by, subst, suc, sym, true, unselected_row, ℕ, ◌*◌, ◌+◌, ◌<◌, ◌==◌,
  ◌∙◌, ◌∷◌, ◌≡◌, ◌≤◌,
}
use teardrop.Scheduling.Claim.{
  claim_due_schedules, claim_each, claimed_rows, claimed_schedule, due_schedules, is_due_schedule,
  runs_before,
}
use teardrop.Scheduling.Claim.Steps.{
  ClaimStep, ClaimSteps, claims_due, no_claim_steps, then_claim_step, writes_elsewhere, writes_row,
}
use teardrop.Scheduling.Tables.{ScheduleDb, ScheduledRun, update_schedule}
use teardrop.Schema.{second_us}

if_same : {A : Type 0} (test : Bool) (x : A) → (if test then x else x) ≡ x
if_same true x = refl
if_same false x = refl

abbrev pub has_id : ℕ → Keyed ScheduledRun → Bool
has_id id rows = exists (λ row. row.0 == id) rows

pub claim_each-lookup :
    (now id : ℕ) (r : ScheduledRun) (rows : Keyed ScheduledRun) (d : ScheduleDb)
    → lookup id d.scheduled_runs ≡ some r
    → lookup id (claim_each now rows d).scheduled_runs
      ≡ some (if has_id id rows then claimed_schedule now r else r)
unfolding claim_each claimed_schedule
claim_each-lookup now id r [] d found = found
claim_each-lookup now id r ((j, s) ∷ rest) d found =
    let d1 = update_schedule j (claimed_schedule now) d in
    elim (Bool-cases (j == id)) [
      | inl e ↦
          let found1 : lookup id d1.scheduled_runs ≡ some (claimed_schedule now r) =
            rw (lookup-update_key j id (claimed_schedule now) d.scheduled_runs, e, found) refl in
          rw e (
            claim_each-lookup now id (claimed_schedule now r) rest d1 found1
            ∙ ap some (if_same (has_id id rest) (claimed_schedule now r)))
      | inr e ↦
          let found1 : lookup id d1.scheduled_runs ≡ some r =
            rw (lookup-update_key j id (claimed_schedule now) d.scheduled_runs, e) found in
          rw e (claim_each-lookup now id r rest d1 found1)
    ]

claim_each-Unique :
    (now : ℕ) (rows : Keyed ScheduledRun) (d : ScheduleDb)
    → Unique d.scheduled_runs
    → Unique (claim_each now rows d).scheduled_runs
unfolding claim_each
claim_each-Unique now [] d unique = unique
claim_each-Unique now ((j, s) ∷ rest) d unique =
    claim_each-Unique now rest (update_schedule j (claimed_schedule now) d)
      (Unique-update_key j (claimed_schedule now) d.scheduled_runs unique)

has_id-claimed :
    (now id : ℕ) (rows : Keyed ScheduledRun) → has_id id (claimed_rows now rows) ≡ has_id id rows
unfolding claimed_rows
has_id-claimed now id [] = refl
has_id-claimed now id ((j, r) ∷ rest) = ground (arith, has_id-claimed now id rest)

has_id-claimed_not :
    (now id : ℕ) (rows : Keyed ScheduledRun)
    → All (λ row. (row.0 == id) ≡ false) rows
    → has_id id (claimed_rows now rows) ≡ false
unfolding claimed_rows
has_id-claimed_not now id [] h = refl
has_id-claimed_not now id ((j, r) ∷ rest) (h, hs) = rw h (has_id-claimed_not now id rest hs)

-- The schedule waits for its next run, which is at `end`.
abbrev WaitsUntil : (end id : ℕ) → ScheduleDb → Type 0
WaitsUntil end id d =
    Unique d.scheduled_runs
    × (r : ScheduledRun) × (lookup id d.scheduled_runs ≡ some r)
    × (r.next_run_at ≡ some end)

waiting_not_due :
    (end now : ℕ) (r : ScheduledRun)
    → r.next_run_at ≡ some end
    → now < end
    → is_due_schedule now r ≡ false
unfolding is_due_schedule
waiting_not_due end now r waits early = ground (arith, waits, early)

waiting_not_claimed :
    (end id now limit : ℕ) (d : ScheduleDb)
    → WaitsUntil end id d
    → now < end
    → All (λ row. (row.0 == id) ≡ false) (due_schedules now limit d)
unfolding due_schedules
waiting_not_claimed end id now limit d (unique, r, found, waits) early =
    let due_now : ℕ × ScheduledRun → Bool = λ row. is_due_schedule now row.1 in
    unselected_row due_now id r d.scheduled_runs (due_schedules now limit d) found
      (waiting_not_due end now r waits early)
      (selected_rows_found runs_before due_now limit d.scheduled_runs unique)

has_id-none :
    (id : ℕ) (rows : Keyed ScheduledRun)
    → All (λ row. (row.0 == id) ≡ false) rows
    → has_id id rows ≡ false
has_id-none id [] h = refl
has_id-none id ((j, r) ∷ rest) (h, hs) = rw h (has_id-none id rest hs)

ClaimStep-WaitsUntil :
    {end : ℕ} (id : ℕ) {d d' : ScheduleDb}
    → ClaimStep end d d'
    → WaitsUntil end id d
    → WaitsUntil end id d'
unfolding claim_due_schedules
ClaimStep-WaitsUntil {end} id (claims_due now limit {d} early) (unique, r, found, waits) =
    let rows = due_schedules now limit d in
    let not_in : has_id id rows ≡ false =
      has_id-none id rows
        (waiting_not_claimed end id now limit d (unique, r, found, waits) early) in
    (
      claim_each-Unique now rows d unique,
      r,
      subst
          (λ b.
            lookup id (claim_each now rows d).scheduled_runs
            ≡ some (if b then claimed_schedule now r else r))
          not_in (claim_each-lookup now id r rows d found),
      waits,
    )
ClaimStep-WaitsUntil id (writes_row k f {d} keeps) (unique, r, found, waits) =
    elim (Bool-cases (k == id)) [
      | inl e ↦ (
        Unique-update_key k f d.scheduled_runs unique,
        f r,
        rw (lookup-update_key k id f d.scheduled_runs, e, found) refl,
        keeps r ∙ waits,
      )
      | inr e ↦ (
        Unique-update_key k f d.scheduled_runs unique,
        r,
        rw (lookup-update_key k id f d.scheduled_runs, e) found,
        waits,
      )
    ]
ClaimStep-WaitsUntil id (writes_elsewhere same) (unique, r, found, waits) =
    (subst Unique (sym same) unique, r, rw same found, waits)

ClaimSteps-WaitsUntil :
    {end : ℕ} (id : ℕ) {d d' : ScheduleDb}
    → ClaimSteps end d d'
    → WaitsUntil end id d
    → WaitsUntil end id d'
ClaimSteps-WaitsUntil id no_claim_steps waits = waits
ClaimSteps-WaitsUntil id (then_claim_step steps step) waits =
    ClaimStep-WaitsUntil id step (ClaimSteps-WaitsUntil id steps waits)

claimed-WaitsUntil :
    (now limit id n : ℕ) (r : ScheduledRun) (d : ScheduleDb)
    → Unique d.scheduled_runs
    → lookup id d.scheduled_runs ≡ some r
    → r.interval_seconds ≡ some n
    → has_id id (claim_due_schedules now limit d).0 ≡ true
    → WaitsUntil (now + n * second_us) id (claim_due_schedules now limit d).1
unfolding claim_due_schedules claimed_schedule
claimed-WaitsUntil now limit id n r d unique found interval claimed_id =
    let rows = due_schedules now limit d in
    let is_in : has_id id rows ≡ true = sym (has_id-claimed now id rows) ∙ claimed_id in
    (
      claim_each-Unique now rows d unique,
      claimed_schedule now r,
      subst
          (λ b.
            lookup id (claim_each now rows d).scheduled_runs
            ≡ some (if b then claimed_schedule now r else r))
          is_in (claim_each-lookup now id r rows d found),
      rw interval refl,
    )

length-claimed :
    (now : ℕ) (rows : Keyed ScheduledRun) → length (claimed_rows now rows) ≡ length rows
unfolding claimed_rows
length-claimed now [] = refl
length-claimed now ((j, r) ∷ rest) = ap suc (length-claimed now rest)

-- A schedule with an interval of n seconds that a claim has taken, in a table whose ids are distinct,
-- is not among those that another claim takes less than n seconds later, after any claims of any
-- workers before that time and any writes that leave the next runs where they are (not a request to
-- run now, a change of the interval or a requeue); each claim takes at most as many as its limit.
pub claim_due_schedules-Disjoint :
    (now limit now' limit' id n : ℕ) (r : ScheduledRun) (d d' : ScheduleDb)
    → Unique d.scheduled_runs
    → lookup id d.scheduled_runs ≡ some r
    → r.interval_seconds ≡ some n
    → has_id id (claim_due_schedules now limit d).0 ≡ true
    → ClaimSteps (now + n * second_us) (claim_due_schedules now limit d).1 d'
    → now' < now + n * second_us
    → (has_id id (claim_due_schedules now' limit' d').0 ≡ false)
      × (length (claim_due_schedules now' limit' d').0 ≤ limit')
unfolding claim_due_schedules due_schedules
claim_due_schedules-Disjoint now limit now' limit' id n r d d' unique found interval claimed_id
      steps early =
    let waits =
      ClaimSteps-WaitsUntil id steps
        (claimed-WaitsUntil now limit id n r d unique found interval claimed_id) in
    (
      has_id-claimed_not now' id (due_schedules now' limit' d')
          (waiting_not_claimed (now + n * second_us) id now' limit' d' waits early),
      omega (
        arith,
        length-claimed now' (due_schedules now' limit' d'),
        length-take-min limit'
            (sort_by runs_before (select (λ row. is_due_schedule now' row.1) d'.scheduled_runs)),
      ),
    )
