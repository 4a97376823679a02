-- ===== src/Settlement/Outcome.antt =====
-- What one retry does: it settles the claimed charge once, or leaves every balance as it was and
-- puts the settlement off or gives it up.
use teardrop.Common.{
  ==_refl, Bool, Bool-cases, List, Option, Option-cases, [], arith, false, if◌then◌else◌, inl, inr,
  leb, lookup, lookup-upsert, none, refl, some, true, ℕ, ◌+◌, ◌-◌, ◌==◌, ◌∙◌, ◌∷◌, ◌≡◌,
}
use teardrop.Credit.{Debit, debit_credit_locked, debit_row, debited, declined, may_debit}
use teardrop.Credit.Charge.{Charged, Charged-balance, Debits, debit_credit_locked-Debits}
use teardrop.Delegation.Funding.{held}
use teardrop.Earnings.{insert_earning, insert_tool_call_earnings}
use teardrop.Ledger.{account, get_credit_balance, insert_ledger, ledger_violation, put_balance}
use teardrop.Schema.{
  Allocation, Db, Failure, LedgerRow, PendingSettlement, Reason, Result, Result-cases, Settings,
  allocation, credit_method, err, malformed, ok, run, ◌>>=◌,
}
use teardrop.Settlement.{
  claimed_row, finish_settlement, mark_charge_settled, pay_allocation, pay_allocations,
  settle_charge, settle_claimed_credit, settle_usage_event, settled_row, update_claimed,
}
use teardrop.Settlement.Retry.{
  after_attempt, delayed_row, exhausted_row, is_claim_lost, retry_later, retry_one,
}

-- The part of the state that the earnings, the usage event and the charge row leave alone.
abbrev SameFunds : Db → Db → Type 0
SameFunds db db' =
    (db'.org_credits ≡ db.org_credits) × (db'.pending_settlements ≡ db.pending_settlements)

pay_allocation-SameFunds :
    (s : Settings) (now id : ℕ) (a : Allocation) (db : Db)
    → SameFunds db (pay_allocation s now id a db)
unfolding pay_allocation insert_tool_call_earnings insert_earning
pay_allocation-SameFunds s now id malformed db = (refl, refl)
pay_allocation-SameFunds s now id (allocation author tool caller total) db =
    (ground arith, ground arith)

pay_allocations-SameFunds :
    (s : Settings) (now id : ℕ) (allocations : List Allocation) (db : Db)
    → SameFunds db (pay_allocations s now id allocations db)
unfolding pay_allocations
pay_allocations-SameFunds s now id [] db = (refl, refl)
pay_allocations-SameFunds s now id (a ∷ rest) db =
    let first = pay_allocation-SameFunds s now id a db in
    let others = pay_allocations-SameFunds s now (id + 1) rest (pay_allocation s now id a db) in
    (others.0 ∙ first.0, others.1 ∙ first.1)

settle_usage_event-SameFunds :
    (id amount : ℕ) (db : Db) → SameFunds db (settle_usage_event id amount db)
unfolding settle_usage_event
settle_usage_event-SameFunds id amount db = (ground arith, ground arith)

settle_charge-SameFunds :
    (charge : Option ℕ) (amount : ℕ) (db : Db) → SameFunds db (settle_charge charge amount db)
unfolding settle_charge mark_charge_settled
settle_charge-SameFunds none amount db = (refl, refl)
settle_charge-SameFunds (some id) amount db = (ground arith, ground arith)

balance-SameFunds :
    (db db' : Db) (k : ℕ) → SameFunds db db' → get_credit_balance k db' ≡ get_credit_balance k db
unfolding get_credit_balance
balance-SameFunds db db' k (credits, _) = rw credits refl

claimed_row-SameFunds :
    (db db' : Db) (id lease : ℕ)
    → SameFunds db db'
    → claimed_row id lease db' ≡ claimed_row id lease db
unfolding claimed_row
claimed_row-SameFunds db db' id lease (_, settlements) = rw settlements refl

-- The conditional update of a row that is still claimed.
update_claimed-lookup :
    (id lease : ℕ) (f : PendingSettlement → PendingSettlement) (db : Db) {p : PendingSettlement}
    → claimed_row id lease db ≡ some p
    → (lookup id (update_claimed id lease f db).pending_settlements ≡ some (f p))
      × ((k : ℕ) → get_credit_balance k (update_claimed id lease f db) ≡ get_credit_balance k db)
unfolding update_claimed get_credit_balance
update_claimed-lookup id lease f db {p} held =
    rw (held, update_claimed)
      (rw (lookup-upsert id id (f p) db.pending_settlements, ==_refl id) refl, λ k. refl)

-- What a failed attempt makes of the row.
abbrev pub put_off : ℕ → PendingSettlement → PendingSettlement → PendingSettlement
put_off now row p =
    if leb row.max_retries (row.retry_count + 1)
    then exhausted_row (row.retry_count + 1) p
    else delayed_row now (row.retry_count + 1) p

-- How the retry of a claimed charge can end.
abbrev pub Outcome : ℕ → ℕ → PendingSettlement → PendingSettlement → Db → Bool × Db → Type 0
Outcome now id row p db (true, db') =
    ((k : ℕ)
      → get_credit_balance k db' + (if row.org_id == k then row.amount_usdc else 0)
        ≡ get_credit_balance k db)
    × (lookup id db'.pending_settlements ≡ some (settled_row (row.retry_count + 1) p))
Outcome now id row p db (false, db') =
    ((k : ℕ) → get_credit_balance k db' ≡ get_credit_balance k db)
    × (lookup id db'.pending_settlements ≡ some (put_off now row p))

insert_ledger-raises :
    (r : LedgerRow) (db : Db) {e : Failure} → insert_ledger r db ≡ err e → is_claim_lost e ≡ false
unfolding insert_ledger ledger_violation
insert_ledger-raises r db h = ground arith

debit_credit_locked-raises :
    (s : Settings) (now entry org amount : ℕ) (reason : Reason) (principal : Option ℕ) (db : Db)
    (e : Failure)
    → debit_credit_locked s now entry org amount reason principal db ≡ err e
    → is_claim_lost e ≡ false
unfolding debit_credit_locked
debit_credit_locked-raises s now entry org amount reason principal db e h =
    elim (Option-cases (account org db)) [
      | inl missing ↦ cc (rw (missing, debit_credit_locked) at h)
      | inr (a, found) ↦ elim (Bool-cases (may_debit s now org amount principal a db)) [
        | inr barred ↦ cc (rw (found, debit_credit_locked, barred) at h)
        | inl may ↦
            let n = a.balance_usdc - amount in
            let r = debit_row now entry org amount n reason principal in
            elim (Result-cases (insert_ledger r (put_balance org n db))) [
              | inl (db', inserted) ↦ cc (rw (found, may, inserted, debit_credit_locked) at h)
              | inr (f, raised) ↦
                  let same : f ≡ e = cc (rw (found, may, raised, debit_credit_locked) at h) in
                  rw (← same) (insert_ledger-raises r (put_balance org n db) raised)
            ]
      ]
    ]

-- A charge leaves the queue as it was.
settlements-Charged :
    {s : Settings} {now entry org amount : ℕ} {reason : Reason} {principal : Option ℕ} {db db' : Db}
    → Charged s now entry org amount reason principal db db'
    → (id lease : ℕ) → claimed_row id lease db' ≡ claimed_row id lease db
unfolding claimed_row put_balance
settlements-Charged c id lease = rw c.written refl

module _ (s : Settings) (now entry earning id : ℕ) (row p : PendingSettlement) (db : Db)
    (held : claimed_row id row.next_retry_at db ≡ some p) where
  retry_later-Outcome :
      Outcome now id row p db (false, retry_later now id row (row.retry_count + 1) db)
  unfolding retry_later
  retry_later-Outcome = elim (Bool-cases (leb row.max_retries (row.retry_count + 1))) [
    | inl last ↦
        let (found, funds) =
          update_claimed-lookup id row.next_retry_at (exhausted_row (row.retry_count + 1)) db
            held in
        rw (last, retry_later) (funds, found)
    | inr more ↦
        let (found, funds) =
          update_claimed-lookup id row.next_retry_at (delayed_row now (row.retry_count + 1)) db
            held in
        rw (more, retry_later) (funds, found)
  ]

  finish_settlement-Outcome :
      {db' : Db} (d : ℕ)
      → Charged s now entry row.org_id row.amount_usdc (run row.run_id) row.principal_id db db'
      → Outcome now id row p db (
          after_attempt now id row
            (row.retry_count + 1)
            (finish_settlement s now earning id row
              (row.retry_count + 1)
              (debited row.amount_usdc d, db'))
            db)
  unfolding finish_settlement after_attempt
  finish_settlement-Outcome {db'} d c =
      let paid = pay_allocations s now earning row.earnings_allocations db' in
      let same = pay_allocations-SameFunds s now earning row.earnings_allocations db' in
      let lease = row.next_retry_at in
      let marked = update_claimed id lease (settled_row (row.retry_count + 1)) paid in
      let still =
        claimed_row-SameFunds db' paid id lease same ∙ settlements-Charged c id lease ∙ held in
      let (found, funds) =
        update_claimed-lookup id lease (settled_row (row.retry_count + 1)) paid still in
      let event = settle_usage_event row.usage_event_id row.amount_usdc marked in
      let event_same = settle_usage_event-SameFunds row.usage_event_id row.amount_usdc marked in
      let last = settle_charge row.charge_id row.amount_usdc event in
      let last_same = settle_charge-SameFunds row.charge_id row.amount_usdc event in
      (
        λ k. ground (
          arith,
          Charged-balance c k,
          balance-SameFunds db' paid k same,
          funds k,
          balance-SameFunds marked event k event_same,
          balance-SameFunds event last k last_same,
        ),
        rw (last_same.1, event_same.1) found,
      )

  attempt-Outcome :
      (r : Result (Debit × Db))
      → Debits s now entry row.org_id row.amount_usdc (run row.run_id) row.principal_id db r
      → ((e : Failure) → r ≡ err e → is_claim_lost e ≡ false)
      → Outcome now id row p db (
          after_attempt now id row
            (row.retry_count + 1)
            (r >>= finish_settlement s now earning id row (row.retry_count + 1))
            db)
  unfolding finish_settlement after_attempt
  attempt-Outcome (ok (declined, db')) same raises = rw same retry_later-Outcome
  attempt-Outcome (ok (debited n d, db')) (n_eq, _, c) raises =
      rw n_eq (finish_settlement-Outcome d c)
  attempt-Outcome (err e) h raises = rw (raises e refl, after_attempt) retry_later-Outcome

  -- The retry of a credit charge whose claim is still held either takes the charge from the org
  -- alone, settles the row and answers true, or leaves every balance as it was, puts the row off
  -- with one more attempt counted, or gives it up after the last, and answers false.
  pub retry_one-Outcome :
      row.billing_method ≡ credit_method
      → leb row.next_retry_at now ≡ false
      → Outcome now id row p db (retry_one s now entry earning id row db)
  unfolding retry_one settle_claimed_credit
  retry_one-Outcome method live =
      rw (method, held, live, retry_one, settle_claimed_credit)
        (attempt-Outcome
          (debit_credit_locked s now entry row.org_id row.amount_usdc (run row.run_id)
            row.principal_id db)
          (debit_credit_locked-Debits s now entry row.org_id row.amount_usdc (run row.run_id)
            row.principal_id db)
          (debit_credit_locked-raises s now entry row.org_id row.amount_usdc (run row.run_id)
            row.principal_id db))
