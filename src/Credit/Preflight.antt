-- ===== src/Credit/Preflight.antt =====
-- The preflight check and the authoritative debit agree: what `verify_credit` admits,
-- `debit_credit` takes, if nothing happens in between.
use teardrop.Common.{
  Option, arith, exists, false, lookup, none, refl, some, true, ℕ, ◌-◌, ◌<◌, ◌==◌, ◌≡◌,
}
use teardrop.Credit.{
  debit_credit, debit_credit_locked, debit_row, debit_tx, may_debit, verified, verify_credit,
}
use teardrop.Ledger.{Account, account, insert_ledger, ledger_violation, put_balance}
use teardrop.Ledger.Conservation.{posted}
use teardrop.Schema.{Db, LedgerRow, Org, Reason, Settings, ok}

verify-Account :
    (s : Settings) (now org m : ℕ) (principal : Option ℕ) (db : Db)
    → 0 < m
    → verify_credit s now org m principal db ≡ verified
    → (a : Account) × (account org db ≡ some a)
unfolding verify_credit
verify-Account s now org m principal db pos h = ground arith

verify-may_debit :
    (s : Settings) (now org m : ℕ) (principal : Option ℕ) (db : Db) (a : Account)
    → account org db ≡ some a
    → verify_credit s now org m principal db ≡ verified
    → may_debit s now org m principal a db ≡ true
unfolding verify_credit may_debit
verify-may_debit s now org m none db a found h = ground arith
verify-may_debit s now org m (some p) db a found h = ground arith

org_of_account :
    (org : ℕ) (db : Db) (a : Account)
    → account org db ≡ some a
    → (o : Org) × (lookup org db.orgs ≡ some o)
unfolding account
org_of_account org db a h = ground arith

-- A debit row with a new id is accepted where the account's org exists.
pub debit_row-accepted :
    (now id org m n : ℕ) (reason : Reason) (p : Option ℕ) (db : Db) (o : Org)
    → 0 < m
    → exists (λ (v : LedgerRow). v.id == id) db.org_credit_ledger ≡ false
    → lookup org db.orgs ≡ some o
    → (db' : Db) × (insert_ledger (debit_row now id org m n reason p) (put_balance org n db)
        ≡ ok db')
unfolding insert_ledger ledger_violation put_balance
debit_row-accepted now id org m n reason p db o pos fresh known =
    (posted (debit_row now id org m n reason p) n db, ground arith)

-- What the preflight admits for a positive minimum, a debit of that minimum takes, if the state is
-- unchanged and the id of the new ledger row is unused.
pub debit_credit-verify_credit :
    (s : Settings) (now new_id org m : ℕ) (reason : Reason) (principal : Option ℕ) (db : Db)
    → 0 < m
    → exists (λ (v : LedgerRow). v.id == new_id) db.org_credit_ledger ≡ false
    → verify_credit s now org m principal db ≡ verified
    → (debit_credit s now new_id org m reason principal db).0 ≡ (true, m)
unfolding debit_credit debit_credit_locked debit_tx
debit_credit-verify_credit s now new_id org m reason principal db pos fresh passed =
    let (a, found) = verify-Account s now org m principal db pos passed in
    let may = verify-may_debit s now org m principal db a found passed in
    let (o, known) = org_of_account org db a found in
    let n = a.balance_usdc - m in
    let (db', inserted) =
      debit_row-accepted now new_id org m n reason principal db o pos fresh known in
    let nonzero : (m == 0) ≡ false = ground arith in
    rw (nonzero, found, may, inserted, debit_credit, debit_credit_locked) refl
