-- ===== src/Tests/Delegation.antt =====
-- A delegation on the small database: funded, marked as attempted, failed.
use teardrop.Common.{Bool, [], arith, false, none, refl, some, true, ℕ, ◌≡◌, ◌≤◌}
use teardrop.Credit.{debit_credit_locked, debit_row, may_debit, principal_limit}
use teardrop.Delegation.{
  attempted, debit_credit_with_delegation_refund, debit_principal, final_charge, fund_outbox,
  mark_delegation_possibly_delivered, mark_locked, new_outbox, outbox_row, put_outbox,
  return_credit, signed_24h, trim_hold,
}
use teardrop.Delegation.Budget.{
  affordable, check_delegation_budget, fund_delegation, over_global_cap,
}
use teardrop.Delegation.Failure.{FailureOutcome, fail_delegation_delivery-FailureOutcome}
use teardrop.Delegation.Funding.{Funds, debit_credit_with_delegation_refund-Funds}
use teardrop.Delegation.Lifecycle.{AllLegal, AllLegal-upsert}
use teardrop.Delegation.Money.{exposure, mark_delegation_possibly_delivered-exposure}
use teardrop.Delegation.Promise.{fund_delegation-check_delegation_budget}
use teardrop.Delegation.Refunds.{closed_is_final}
use teardrop.Delegation.Resolution.{
  already_reversed, cancel_delegation_refund, close_refund, complete_delegation_refund,
  complete_refund_locked, confirm_delegation_delivery, fail_delegation_delivery, fail_locked,
  failed_row, refunded_row, request_delegation_refund,
}
use teardrop.Delegation.Treasury.{mark_delegation_possibly_delivered-within_cap}
use teardrop.Ledger.{
  account, add_balance, counts, credit_row, effective_limit, get_credit_balance,
  get_daily_debit_spend, get_daily_principal_debit_spend, insert_ledger, is_reversed,
  ledger_violation, put_balance,
}
use teardrop.Ledger.Conservation.{posted}
use teardrop.Schema.{Db, Outbox, delegation, other}
use teardrop.Tests.State.{db, noon, settings}

-- What the funding call leaves: 8_000 held for delegation 11, paid by ledger row 2.
abbrev funded_row : Outbox
funded_row = new_outbox noon 1 9 8_000 2

abbrev funding : (Bool × ℕ) × Db
funding =
    debit_credit_with_delegation_refund settings noon 2 1 8_000 (delegation 11 9) 11 9 (some 7) db

abbrev held_db : Db
held_db =
    put_outbox 11 funded_row
      (posted (debit_row noon 2 1 8_000 42_000 (delegation 11 9) (some 7)) 42_000 db)

funding_runs : funding ≡ ((true, 8_000), held_db)
unfolding debit_credit_with_delegation_refund debit_credit_locked may_debit account effective_limit
    principal_limit get_daily_debit_spend get_daily_principal_debit_spend counts is_reversed
    insert_ledger ledger_violation put_balance credit_row outbox_row fund_outbox
funding_runs = refl

debit_credit_with_delegation_refund-Funds_example : Funds noon 2 1 8_000 11 9 db funding
unfolding outbox_row
debit_credit_with_delegation_refund-Funds_example =
    debit_credit_with_delegation_refund-Funds settings noon 2 1 8_000 (delegation 11 9) 11 9
      (some 7) db (omega arith) refl

-- Marking with a charge of 6_000 gives 2_000 back.
abbrev marked : Bool × Db
marked = mark_delegation_possibly_delivered settings noon 3 1 11 (some 6_000) held_db

marked_runs : (marked.0 ≡ true) × (get_credit_balance 1 marked.1 ≡ 44_000)
unfolding mark_delegation_possibly_delivered mark_locked outbox_row final_charge signed_24h
    trim_hold return_credit debit_principal add_balance insert_ledger ledger_violation put_balance
    credit_row get_credit_balance
marked_runs = (refl, refl)

mark_delegation_possibly_delivered-exposure_example :
    exposure 1 11 1 marked.1 ≡ exposure 1 11 1 held_db
mark_delegation_possibly_delivered-exposure_example =
    mark_delegation_possibly_delivered-exposure settings noon 3 1 11 (some 6_000) held_db 1

mark_delegation_possibly_delivered-within_cap_example : signed_24h noon marked.1 ≤ 5_000_000
unfolding outbox_row put_balance
mark_delegation_possibly_delivered-within_cap_example =
    mark_delegation_possibly_delivered-within_cap settings noon 3 1 11 (some 6_000) held_db
      funded_row refl refl marked_runs.0

-- The row after an attempt, and the call that records its definitive failure.
abbrev attempted_row : Outbox
attempted_row = attempted noon 8_000 funded_row

abbrev attempted_db : Db
attempted_db = put_outbox 11 attempted_row held_db

attempted_legal : AllLegal attempted_db.a2a_delegation_refund_outbox
unfolding put_balance
attempted_legal = AllLegal-upsert 11 attempted_row [] tt (λ k o h. cc)

attempted_found : outbox_row 1 11 attempted_db ≡ some attempted_row
unfolding outbox_row put_balance
attempted_found = refl

attempted_unpaid :
    (o : Outbox) → outbox_row 1 11 attempted_db ≡ some o → already_reversed o attempted_db ≡ false
unfolding already_reversed is_reversed put_balance
attempted_unpaid o h = let same : attempted_row ≡ o = cc (attempted_found, h) in rw (← same) refl

abbrev failing : Bool × Db
failing = fail_delegation_delivery noon 3 1 11 attempted_db

failing_runs : (failing.0 ≡ true) × (get_credit_balance 1 failing.1 ≡ 50_000)
unfolding fail_delegation_delivery fail_locked outbox_row complete_refund_locked already_reversed
    is_reversed return_credit debit_principal add_balance insert_ledger ledger_violation put_balance
    credit_row get_credit_balance close_refund
failing_runs = (refl, refl)

fail_delegation_delivery-FailureOutcome_example :
    FailureOutcome noon 3 1 11 attempted_row attempted_db failing
unfolding outbox_row put_balance
fail_delegation_delivery-FailureOutcome_example =
    fail_delegation_delivery-FailureOutcome noon 3 1 11 attempted_row attempted_db attempted_found
      tt (attempted_unpaid attempted_row attempted_found)

-- The refunded row, and everything that could be tried on it.
abbrev closed_row : Outbox
closed_row = refunded_row false noon (failed_row noon attempted_row)

abbrev closed_db : Db
closed_db = put_outbox 11 closed_row held_db

closed_is_final_example :
    ((fail_delegation_delivery noon 4 1 11 closed_db).1 ≡ closed_db)
    × ((complete_delegation_refund noon 4 1 11 closed_db).1 ≡ closed_db)
    × ((request_delegation_refund 1 11 closed_db).1 ≡ closed_db)
    × ((confirm_delegation_delivery noon 1 11 closed_db).1 ≡ closed_db)
    × ((cancel_delegation_refund noon 1 11 closed_db).1 ≡ closed_db)
    × ((mark_delegation_possibly_delivered settings noon 4 1 11 none closed_db).1 ≡ closed_db)
unfolding outbox_row put_balance
closed_is_final_example =
    closed_is_final settings noon 4 1 11 none closed_db closed_row refl tt refl

-- The budget check admits 8_000, and the funding takes it.
budget_runs : check_delegation_budget settings noon 1 8_000 (some 7) db ≡ affordable
unfolding check_delegation_budget principal_limit get_daily_debit_spend
    get_daily_principal_debit_spend counts is_reversed
budget_runs = refl

budget_over_cap : check_delegation_budget settings noon 1 100_001 (some 7) db ≡ over_global_cap
unfolding check_delegation_budget
budget_over_cap = refl

fund_delegation-check_delegation_budget_example :
    (fund_delegation settings noon 2 1 8_000 9 5 11 (some 7) db).0 ≡ true
fund_delegation-check_delegation_budget_example =
    fund_delegation-check_delegation_budget settings noon 2 1 8_000 9 5 11 (some 7) db
      (record { acquisition_source = other }) (omega arith) refl refl refl refl refl budget_runs
