-- ===== src/Delegation/Promise.antt =====
-- The budget check and the funding agree, for an org that has a limit of its own.
-- The account of an org that has a row.
use teardrop.Common.{
  Option, arith, exists, false, lookup, none, refl, some, true, ℕ, ◌-◌, ◌<◌, ◌==◌, ◌≡◌,
}
use teardrop.Credit.{debit_credit_locked, debit_row, debited, may_debit}
use teardrop.Credit.Preflight.{debit_row-accepted}
use teardrop.Delegation.{
  debit_credit_with_delegation_refund, fund_outbox, new_outbox, outbox_row, put_outbox,
}
use teardrop.Delegation.Budget.{affordable, check_delegation_budget, fund_delegation}
use teardrop.Delegation.Funding.{held}
use teardrop.Ledger.{Account, account, effective_limit, is_machine, put_balance}
use teardrop.Ledger.Entry.{insert_ledger-eq-ok}
use teardrop.Schema.{Db, LedgerRow, Org, OrgCredit, Settings, delegation, ok}

abbrev account_of : OrgCredit → Org → Account
account_of c o = record {
  balance_usdc = c.balance_usdc;
  spending_limit_usdc = c.spending_limit_usdc;
  is_paused = c.is_paused;
  acquisition_source = o.acquisition_source;
}

budget-row :
    (s : Settings) (now org cost : ℕ) (principal : Option ℕ) (db : Db)
    → 0 < cost
    → s.a2a_delegation_billing_enabled ≡ true
    → check_delegation_budget s now org cost principal db ≡ affordable
    → (c : OrgCredit) × (lookup org db.org_credits ≡ some c)
unfolding check_delegation_budget
budget-row s now org cost principal db pos enabled passed = ground arith

account-row :
    (org : ℕ) (db : Db) (c : OrgCredit) (o : Org)
    → lookup org db.org_credits ≡ some c
    → lookup org db.orgs ≡ some o
    → account org db ≡ some (account_of c o)
unfolding account
account-row org db c o held known = rw (held, known, account) refl

budget-may_debit :
    (s : Settings) (now org cost : ℕ) (principal : Option ℕ) (db : Db) (c : OrgCredit) (o : Org)
    → s.a2a_delegation_billing_enabled ≡ true
    → lookup org db.org_credits ≡ some c
    → is_machine o.acquisition_source ≡ false
    → check_delegation_budget s now org cost principal db ≡ affordable
    → may_debit s now org cost principal (account_of c o) db ≡ true
unfolding check_delegation_budget may_debit effective_limit
budget-may_debit s now org cost none db c o enabled held ordinary passed = ground arith
budget-may_debit s now org cost (some p) db c o enabled held ordinary passed = ground arith

fund_outbox-free :
    (now org run_id id cost entry : ℕ) (db : Db)
    → lookup id db.a2a_delegation_refund_outbox ≡ none
    → fund_outbox now org run_id id (debited cost entry, db)
      ≡ ok ((true, cost), put_outbox id (new_outbox now org run_id cost entry) db)
unfolding fund_outbox
fund_outbox-free now org run_id id cost entry db free = rw (free, fund_outbox) refl

-- What the budget check admits for a positive cost, with delegation billing on, the funding takes,
-- for an org that was not provisioned by a payment or a sign-in, if the state is unchanged and the
-- ids of the delegation and of the ledger row are unused.
pub fund_delegation-check_delegation_budget :
    (s : Settings) (now entry org cost run_id agent id : ℕ) (principal : Option ℕ) (db : Db)
    (o : Org)
    → 0 < cost
    → s.a2a_delegation_billing_enabled ≡ true
    → exists (λ (v : LedgerRow). v.id == entry) db.org_credit_ledger ≡ false
    → lookup id db.a2a_delegation_refund_outbox ≡ none
    → lookup org db.orgs ≡ some o
    → is_machine o.acquisition_source ≡ false
    → check_delegation_budget s now org cost principal db ≡ affordable
    → (fund_delegation s now entry org cost run_id agent id principal db).0 ≡ true
unfolding fund_delegation debit_credit_with_delegation_refund debit_credit_locked outbox_row
    fund_outbox put_balance
fund_delegation-check_delegation_budget s now entry org cost run_id agent id principal db o pos
      enabled fresh unused known ordinary passed =
    let (c, held) = budget-row s now org cost principal db pos enabled passed in
    let found = account-row org db c o held known in
    let may = budget-may_debit s now org cost principal db c o enabled held ordinary passed in
    let n = c.balance_usdc - cost in
    let reason = delegation run_id agent in
    let row_unused : outbox_row org id db ≡ none = rw (unused, outbox_row) refl in
    let (db', inserted) =
      debit_row-accepted now entry org cost n reason principal db o pos fresh known in
    let nonzero : (cost == 0) ≡ false = ground arith in
    let written =
      insert_ledger-eq-ok (debit_row now entry org cost n reason principal) (put_balance org n db)
        inserted in
    let opens = fund_outbox-free now org run_id id cost entry db' (rw written unused) in
    rw
      (
        nonzero, row_unused, found, may, inserted, fund_delegation,
        debit_credit_with_delegation_refund, debit_credit_locked,
      )
      (rw opens refl)
