-- ===== src/Credit.antt =====
-- BillingCreditService of billing/credit.py: the preflight check, the debit and its delegation
-- variant, top-ups, onboarding grants. A method that holds one transaction is one function of the
-- state; its row locks (SELECT … FOR UPDATE) are what makes it one step. A missing or empty
-- `principal_id` is none, and an amount that is not positive is 0.
pub mod Charge
pub mod Settled
pub mod Limits
pub mod Preflight
use teardrop.Common.{
  Bool, Option, false, find?, if◌then◌else◌, leb, ltb, none, some, sum_where, true, ℕ, ◌&&◌, ◌*◌,
  ◌+◌, ◌-◌, ◌==◌,
}
use teardrop.Ledger.{
  Account, account, effective_limit, get_daily_debit_spend, get_daily_principal_debit_spend,
  insert_ledger, put_balance, sql_eq,
}
use teardrop.Schema.{
  BillingMethod, Db, LedgerRow, PendingSettlement, PrincipalLimit, Reason, Result, Settings,
  SettlementStatus, credit_method, day_us, debit, err, ok, or_rollback, other, settled, since,
  x402_method,
}

-- What a check refuses for, in the words of the error.
pub data Refusal : Type 0 where
  org_paused insufficient_credit daily_limit_reached principal_paused principal_limit_reached :
      Refusal

pub data Verdict : Type 0 where
  verified : Verdict
  refused : Refusal → Verdict

-- Unpaid credit charges: queued settlements of the last 7 days that are not settled.
abbrev is_owed : SettlementStatus → Bool
is_owed settled = false
is_owed _ = true

abbrev is_credit : BillingMethod → Bool
is_credit credit_method = true
is_credit x402_method = false

obligation : ℕ → ℕ → PendingSettlement → Bool
obligation now org p =
    p.org_id == org
    && is_credit p.billing_method
    && is_owed p.status
    && since now (7 * day_us) p.created_at

unfoldable pub org_outstanding : ℕ → ℕ → Db → ℕ
unfolding obligation
org_outstanding now org db =
    sum_where (λ p. obligation now org p.1) (λ p. p.1.amount_usdc) db.pending_settlements

unfoldable pub principal_outstanding : ℕ → ℕ → ℕ → Db → ℕ
unfolding obligation
principal_outstanding now org principal db =
    sum_where (λ p. sql_eq p.1.principal_id principal && obligation now org p.1)
      (λ p. p.1.amount_usdc) db.pending_settlements

unfoldable pub principal_limit : ℕ → ℕ → Db → Option PrincipalLimit
principal_limit org principal db =
    find? (λ (l : PrincipalLimit). l.org_id == org && l.principal_id == principal)
      db.org_principal_spend_limits

-- An org with no account reads as balance 0, no limit, not paused.
abbrev no_account : Account
no_account = record {
  balance_usdc = 0;
  spending_limit_usdc = 0;
  is_paused = false;
  acquisition_source = other;
}

account_or_empty : ℕ → Db → Account
account_or_empty org db = elim (account org db) [ none ↦ no_account | some a ↦ a ]

-- The principal's part of the check.
verify_principal : ℕ → ℕ → ℕ → Option ℕ → Db → Verdict
verify_principal now org min_balance none db = verified
verify_principal now org min_balance (some p) db = elim (principal_limit org p db) [
  | none ↦ verified
  | some l ↦
      if l.is_paused
      then refused principal_paused
      else if ltb l.daily_limit_usdc (
          get_daily_principal_debit_spend now org p db
          + principal_outstanding now org p db
          + min_balance)
      then refused principal_limit_reached
      else verified
]

unfoldable pub verify_credit : Settings → ℕ → ℕ → ℕ → Option ℕ → Db → Verdict
unfolding account_or_empty verify_principal
verify_credit s now org min_balance principal db =
    let a = account_or_empty org db in
    let spending_limit = effective_limit s a in
    let outstanding = org_outstanding now org db in
    if a.is_paused
    then refused org_paused
    else if ltb a.balance_usdc (outstanding + min_balance)
    then refused insufficient_credit
    else if ltb 0 spending_limit
        && ltb spending_limit (get_daily_debit_spend now org db + outstanding + min_balance)
    then refused daily_limit_reached
    else verify_principal now org min_balance principal db

-- The result of `_debit_credit_locked`: `declined` is (False, 0, None), and `debited amount id`
-- is (True, amount, id).
pub data Debit : Type 0 where
  declined : Debit
  debited : ℕ → ℕ → Debit

principal_admits : ℕ → ℕ → ℕ → Option ℕ → Db → Bool
principal_admits now org amount none db = true
principal_admits now org amount (some p) db = elim (principal_limit org p db) [
  | none ↦ true
  | some l ↦
      if l.is_paused
      then false
      else leb (get_daily_principal_debit_spend now org p db + amount) l.daily_limit_usdc
]

org_admits : Settings → ℕ → ℕ → ℕ → Account → Db → Bool
org_admits s now org amount a db =
    let spending_limit = effective_limit s a in
    if ltb 0 spending_limit
    then leb (get_daily_debit_spend now org db + amount) spending_limit
    else true

-- The tests of `_debit_credit_locked`, each of which returns (False, 0, None).
unfoldable pub may_debit : Settings → ℕ → ℕ → ℕ → Option ℕ → Account → Db → Bool
unfolding principal_admits org_admits
may_debit s now org amount principal a db =
    if a.is_paused
    then false
    else if org_admits s now org amount a db
    then if principal_admits now org amount principal db then leb amount a.balance_usdc else false
    else false

abbrev pub debit_row : ℕ → ℕ → ℕ → ℕ → ℕ → Reason → Option ℕ → LedgerRow
debit_row now id org amount new_balance reason principal = record {
  id = id;
  org_id = org;
  operation = debit;
  amount_usdc = amount;
  balance_usdc_after = new_balance;
  reason = reason;
  principal_id = principal;
  external_ref = none;
  reverses_ledger_id = none;
  created_at = now;
}

-- `new_id` is the row's uuid4.
unfoldable pub debit_credit_locked :
    Settings → ℕ → ℕ → ℕ → ℕ → Reason → Option ℕ → Db → Result (Debit × Db)
unfolding may_debit
debit_credit_locked s now new_id org amount reason principal db = elim (account org db) [
  | none ↦ ok (declined, db)
  | some a ↦
      if may_debit s now org amount principal a db
      then (let new_balance = a.balance_usdc - amount in
          let db' = put_balance org new_balance db in
          elim (insert_ledger (debit_row now new_id org amount new_balance reason principal) db') [
            | ok db'' ↦ ok (debited amount new_id, db'')
            | err e ↦ err e
          ])
      else ok (declined, db)
]

abbrev debit_answer : Debit → Bool × ℕ
debit_answer declined = (false, 0)
debit_answer (debited amount _) = (true, amount)

debit_tx : Result (Debit × Db) → Result ((Bool × ℕ) × Db)
debit_tx (ok (d, db)) = ok (debit_answer d, db)
debit_tx (err e) = err e

-- The `except` gives (False, 0); the cache that it invalidates serves displays only.
unfoldable pub debit_credit : Settings → ℕ → ℕ → ℕ → ℕ → Reason → Option ℕ → Db → (Bool × ℕ) × Db
unfolding debit_tx
debit_credit s now new_id org amount reason principal db =
    if amount == 0
    then ((true, 0), db)
    else or_rollback db (false, 0)
        (debit_tx (debit_credit_locked s now new_id org amount reason principal db))
