-- ===== src/Tests/Credit.antt =====
-- The credit rail on the small database.
use teardrop.Common.{Bool, arith, false, refl, some, true, ℕ, ◌≡◌}
use teardrop.Credit.{
  debit_credit, debit_credit_locked, may_debit, org_outstanding, principal_limit,
  principal_outstanding, verify_credit,
}
use teardrop.Credit.Limits.{WithinLimits, debit_credit-WithinLimits}
use teardrop.Credit.Preflight.{debit_credit-verify_credit}
use teardrop.Credit.Settled.{AllOrNothing, debit_credit-AllOrNothing, debit_credit-IsConsistent}
use teardrop.Ledger.{
  Account, account, counts, credit_row, effective_limit, get_credit_balance, get_daily_debit_spend,
  get_daily_principal_debit_spend, insert_ledger, is_reversed, ledger_violation, put_balance,
}
use teardrop.Ledger.Conservation.{IsConsistent, credited_total, debited_total, last_balance}
use teardrop.Schema.{Db, run}
use teardrop.Tests.State.{db, noon, settings}

abbrev charge : (Bool × ℕ) × Db
charge = debit_credit settings noon 2 1 10_000 (run 9) (some 7) db

charge_runs : (charge.0 ≡ (true, 10_000)) × (get_credit_balance 1 charge.1 ≡ 40_000)
unfolding debit_credit debit_credit_locked may_debit account effective_limit principal_limit
    get_daily_debit_spend get_daily_principal_debit_spend counts is_reversed insert_ledger
    ledger_violation put_balance credit_row get_credit_balance
charge_runs = (refl, refl)

charge_over_principal_limit :
    (debit_credit settings noon 2 1 20_001 (run 9) (some 7) db).0 ≡ (false, 0)
unfolding debit_credit debit_credit_locked may_debit account effective_limit principal_limit
    get_daily_debit_spend get_daily_principal_debit_spend counts is_reversed
charge_over_principal_limit = refl

debit_credit-AllOrNothing_example : AllOrNothing 1 10_000 db charge
debit_credit-AllOrNothing_example =
    debit_credit-AllOrNothing settings noon 2 1 10_000 (run 9) (some 7) db

debit_credit-WithinLimits_example :
    (a : Account) × (account 1 db ≡ some a) × WithinLimits settings noon 1 (some 7) a db charge.1
unfolding debit_credit debit_credit_locked may_debit account effective_limit principal_limit
    get_daily_debit_spend get_daily_principal_debit_spend counts is_reversed insert_ledger
    ledger_violation put_balance credit_row
debit_credit-WithinLimits_example =
    debit_credit-WithinLimits settings noon 2 1 10_000 (run 9) (some 7) db (omega arith) refl

debit_credit-verify_credit_example : charge.0 ≡ (true, 10_000)
unfolding verify_credit account effective_limit principal_limit get_daily_debit_spend
    get_daily_principal_debit_spend org_outstanding principal_outstanding counts
debit_credit-verify_credit_example =
    debit_credit-verify_credit settings noon 2 1 10_000 (run 9) (some 7) db (omega arith) refl refl

db-IsConsistent : IsConsistent 1 db
unfolding get_credit_balance debited_total credited_total last_balance
db-IsConsistent = record { conserved = refl; audited = refl }

debit_credit-IsConsistent_example : IsConsistent 1 charge.1
debit_credit-IsConsistent_example =
    debit_credit-IsConsistent settings noon 2 1 10_000 (run 9) (some 7) db 1 db-IsConsistent
