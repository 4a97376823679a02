-- ===== src/Tests/Settlement.antt =====
-- The retry queue and the earnings on the small database.
use teardrop.Common.{Bool, [], none, refl, some, true, ◌+◌, ◌∷◌, ◌≡◌, ◌≤◌}
use teardrop.Credit.{debit_credit_locked, may_debit, principal_limit}
use teardrop.Earnings.{author_share, get_author_balance, insert_earning, insert_tool_call_earnings}
use teardrop.Ledger.{
  account, counts, credit_row, effective_limit, get_credit_balance, get_daily_debit_spend,
  get_daily_principal_debit_spend, insert_ledger, is_reversed, ledger_violation, put_balance,
}
use teardrop.Schema.{Db, PendingSettlement, allocation, credit_method}
use teardrop.Settlement.{
  claimed_row, enqueue_failed_settlement, finish_settlement, pay_allocation, pay_allocations,
  put_settlement, queued, settle_charge, settle_claimed_credit, settle_usage_event, update_claimed,
}
use teardrop.Settlement.Once.{retry_one-once}
use teardrop.Settlement.Outcome.{Outcome, retry_one-Outcome}
use teardrop.Settlement.Prefix.{exhausted_total, rearm_exhausted_credit_settlements-within_cap}
use teardrop.Settlement.Rearm.{
  is_candidate, is_rearmed, rearm_exhausted_credit_settlements, running_total,
}
use teardrop.Settlement.Retry.{
  after_attempt, claim_all, claim_due, exhausted_row, is_due, leased, retry_one,
}
use teardrop.Tests.State.{db, noon, settings}

-- A charge of 9_000 for org 1, with an allocation to org 2 as the author of tool 4.
abbrev entry_row : PendingSettlement
entry_row = queued settings 0 21 1 9 credit_method 9_000 (some 7) none (allocation 2 4 1 9_000 ∷ [])

abbrev queue_db : Db
queue_db = put_settlement 31 entry_row db

enqueue_runs :
    enqueue_failed_settlement settings 0 31 21 1 9 credit_method 9_000
      (some 7)
      none
      (allocation 2 4 1 9_000 ∷ [])
      db
    ≡ queue_db
unfolding enqueue_failed_settlement
enqueue_runs = refl

-- The row and the state as the claim leaves them.
abbrev claim : PendingSettlement
claim = leased noon entry_row

abbrev claimed_db : Db
claimed_db = put_settlement 31 claim db

claim_runs : claim_due noon queue_db ≡ ((31, claim) ∷ [], claimed_db)
unfolding claim_due is_due claim_all
claim_runs = refl

claim_held : claimed_row 31 claim.next_retry_at claimed_db ≡ some claim
unfolding claimed_row
claim_held = refl

abbrev retry : Bool × Db
retry = retry_one settings noon 2 1 31 claim claimed_db

retry_runs :
    (retry.0 ≡ true)
    × (get_credit_balance 1 retry.1 ≡ 41_000)
    × (get_author_balance 2 retry.1 ≡ 6_300)
unfolding retry_one settle_claimed_credit claimed_row debit_credit_locked may_debit account
    effective_limit principal_limit get_daily_debit_spend get_daily_principal_debit_spend counts
    is_reversed insert_ledger ledger_violation put_balance credit_row finish_settlement
    pay_allocations pay_allocation insert_tool_call_earnings insert_earning author_share
    update_claimed settle_usage_event settle_charge after_attempt get_credit_balance
    get_author_balance
retry_runs = (refl, refl, refl)

retry_one-Outcome_example : Outcome noon 31 claim claim claimed_db retry
retry_one-Outcome_example =
    retry_one-Outcome settings noon 2 1 31 claim claim claimed_db claim_held refl refl

retry_one-once_example : (retry_one settings 50_000_000_000 3 2 31 claim retry.1).1 ≡ retry.1
retry_one-once_example =
    retry_one-once settings noon 2 1 31 claim claim claimed_db 50_000_000_000 3 2 claim_held refl
      refl retry_runs.0

-- Three exhausted charges of 9_000: a cap of 20_000 re-arms the first two.
abbrev exhausted_db : Db
exhausted_db = record db {
  pending_settlements =
      (31, exhausted_row 5 entry_row)
      ∷ (32, exhausted_row 5 entry_row)
      ∷ (33, exhausted_row 5 entry_row)
      ∷ [];
}

rearm_runs : (rearm_exhausted_credit_settlements 1 20_000 noon exhausted_db).0 ≡ 2
unfolding rearm_exhausted_credit_settlements is_rearmed is_candidate running_total
rearm_runs = refl

rearm_exhausted_credit_settlements-within_cap_example :
    (exhausted_total 1 noon exhausted_db
      ≤ exhausted_total 1 noon (rearm_exhausted_credit_settlements 1 20_000 noon exhausted_db).1
        + 20_000)
    × (exhausted_total 1 noon (rearm_exhausted_credit_settlements 1 20_000 noon exhausted_db).1
        ≤ exhausted_total 1 noon exhausted_db)
rearm_exhausted_credit_settlements-within_cap_example =
    rearm_exhausted_credit_settlements-within_cap 1 20_000 noon exhausted_db
