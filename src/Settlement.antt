-- ===== src/Settlement.antt =====
-- billing/settlement.py: charges that failed are queued, retried with a growing delay under a lease
-- of five minutes, and given up after `max_retries`; an administrator or a top-up re-arms them.
-- `entry` is the uuid of the ledger row that a retry may write, and `earning` that of its first
-- earnings row. The caches that are invalidated serve displays only.
pub mod Retry
pub mod Outcome
pub mod Once
pub mod Rearm
pub mod Prefix
use teardrop.Common.{
  Bool, List, Option, [], false, if◌then◌else◌, leb, lookup, ltb, none, some, true, upsert, ℕ, ◌&&◌,
  ◌*◌, ◌+◌, ◌==◌, ◌||◌, ◌∷◌,
}
use teardrop.Credit.{Debit, debit_credit_locked, debited, declined}
use teardrop.Earnings.{insert_tool_call_earnings}
use teardrop.Ledger.{max_bigint}
use teardrop.Schema.{
  Allocation, BillingMethod, ChargeStatus, Db, PendingSettlement, Result, Settings,
  SettlementStatus, allocation, charge_failed, charge_settled, claim_lost, err, exhausted,
  malformed, ok, or_rollback, retrying, run, second_us, settled, waiting, ◌>>=◌,
}

abbrev pub is_waiting : SettlementStatus → Bool
is_waiting waiting = true
is_waiting _ = false

abbrev pub is_retrying : SettlementStatus → Bool
is_retrying retrying = true
is_retrying _ = false

abbrev pub is_exhausted : SettlementStatus → Bool
is_exhausted exhausted = true
is_exhausted _ = false

abbrev pub is_charge_failed : ChargeStatus → Bool
is_charge_failed charge_failed = true
is_charge_failed _ = false

-- UPDATE pending_settlements … WHERE id = $1, of a row that is there
abbrev pub put_settlement : ℕ → PendingSettlement → Db → Db
put_settlement id p db = record db { pending_settlements = upsert id p db.pending_settlements }

-- … WHERE id = $1 AND status = 'retrying' AND next_retry_at = lease
unfoldable pub claimed_row : ℕ → ℕ → Db → Option PendingSettlement
claimed_row id lease db = elim (lookup id db.pending_settlements) [
  | none ↦ none
  | some p ↦ if is_retrying p.status && p.next_retry_at == lease then some p else none
]

unfoldable pub update_claimed : ℕ → ℕ → (PendingSettlement → PendingSettlement) → Db → Db
update_claimed id lease f db = elim (claimed_row id lease db) [
  | none ↦ db
  | some p ↦ put_settlement id (f p) db
]

-- enqueue_failed_settlement; `new_id` is the row's uuid4

abbrev pub queued :
    Settings
    → ℕ
    → ℕ
    → ℕ
    → ℕ
    → BillingMethod
    → ℕ
    → Option ℕ
    → Option ℕ
    → List Allocation
    → PendingSettlement
queued s now event org run_id method amount principal charge allocations = record {
  org_id = org;
  run_id = run_id;
  billing_method = method;
  amount_usdc = amount;
  principal_id = principal;
  retry_count = 0;
  max_retries = s.settlement_max_retries;
  next_retry_at = now + 2 * second_us;
  status = waiting;
  usage_event_id = event;
  charge_id = charge;
  earnings_allocations = allocations;
  created_at = now;
}

unfoldable pub enqueue_failed_settlement :
    Settings
    → ℕ
    → ℕ
    → ℕ
    → ℕ
    → ℕ
    → BillingMethod
    → ℕ
    → Option ℕ
    → Option ℕ
    → List Allocation
    → Db
    → Db
enqueue_failed_settlement s now new_id event org run_id method amount principal charge allocations
      db =
    if amount == 0 || ltb max_bigint amount
    then db
    else elim (lookup new_id db.pending_settlements) [
      | some _ ↦ db
      | none ↦
          put_settlement new_id
            (queued s now event org run_id method amount principal charge allocations) db
    ]

-- _settle_claimed_credit

-- One allocation, in a savepoint: one that the table rejects leaves nothing.
unfoldable pub pay_allocation : Settings → ℕ → ℕ → Allocation → Db → Db
pay_allocation s now id malformed db = db
pay_allocation s now id (allocation author tool caller total) db =
    (or_rollback db false (insert_tool_call_earnings s now id author tool caller total db)).1

unfoldable pub pay_allocations : Settings → ℕ → ℕ → List Allocation → Db → Db
pay_allocations s now id [] db = db
pay_allocations s now id (a ∷ rest) db =
    pay_allocations s now (id + 1) rest (pay_allocation s now id a db)

-- UPDATE usage_events … WHERE id = $1 AND settlement_status != 'settled'
unfoldable pub settle_usage_event : ℕ → ℕ → Db → Db
settle_usage_event id amount db = elim (lookup id db.usage_events) [
  | none ↦ db
  | some u ↦ if u.is_settled then db else record db {
    usage_events = upsert id (record { cost_usdc = amount; is_settled = true }) db.usage_events;
  }
]

-- billing/charges.py
unfoldable pub mark_charge_settled : ℕ → ℕ → Db → Db
mark_charge_settled id amount db = elim (lookup id db.billing_charges) [
  | none ↦ db
  | some c ↦
      if is_charge_failed c.status
      then record db {
        billing_charges =
            upsert id (record c { settled_amount_usdc = amount; status = charge_settled })
              db.billing_charges;
      }
      else db
]

unfoldable pub settle_charge : Option ℕ → ℕ → Db → Db
unfolding mark_charge_settled
settle_charge none amount db = db
settle_charge (some id) amount db = mark_charge_settled id amount db

abbrev pub settled_row : ℕ → PendingSettlement → PendingSettlement
settled_row retry_count p = record p { status = settled; retry_count = retry_count }

-- What follows the debit in the same transaction. `row` is the claim as it was read.
unfoldable pub finish_settlement :
    Settings → ℕ → ℕ → ℕ → PendingSettlement → ℕ → Debit × Db → Result ((Bool × ℕ) × Db)
unfolding pay_allocations settle_usage_event settle_charge update_claimed
finish_settlement s now earning id row retry_count (declined, db) = ok ((false, 0), db)
finish_settlement s now earning id row retry_count (debited amount _, db) =
    let paid = pay_allocations s now earning row.earnings_allocations db in
    let marked = update_claimed id row.next_retry_at (settled_row retry_count) paid in
    ok (
      (true, amount),
      settle_charge row.charge_id amount (settle_usage_event row.usage_event_id amount marked),
    )

unfoldable pub settle_claimed_credit :
    Settings → ℕ → ℕ → ℕ → ℕ → PendingSettlement → ℕ → Db → Result ((Bool × ℕ) × Db)
unfolding finish_settlement
settle_claimed_credit s now entry earning id row retry_count db =
    elim (claimed_row id row.next_retry_at db) [
      | none ↦ err claim_lost
      | some _ ↦
          if leb row.next_retry_at now
          then err claim_lost
          else (debit_credit_locked s now entry row.org_id row.amount_usdc (run row.run_id)
                row.principal_id db
              >>= finish_settlement s now earning id row retry_count)
    ]
