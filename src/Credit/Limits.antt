-- ===== src/Credit/Limits.antt =====
-- The rolling 24-hour limits: a debit that goes through stays within them, and the preflight
-- check promises that it goes through.
use teardrop.Common.{
  List, Option, arith, false, refl, some, sum_where_congr, true, ℕ, ◌&&◌, ◌+◌, ◌-◌, ◌<◌, ◌∷◌, ◌≡◌,
  ◌≤◌,
}
use teardrop.Credit.{
  debit_credit, debit_row, may_debit, org_admits, principal_admits, principal_limit,
}
use teardrop.Credit.Charge.{Charged}
use teardrop.Credit.Settled.{debit_credit-Charged}
use teardrop.Ledger.{
  Account, account, counts, effective_limit, get_daily_debit_spend, get_daily_principal_debit_spend,
  is_reversed, sql_eq,
}
use teardrop.Ledger.Conservation.{posted}
use teardrop.Schema.{Db, LedgerRow, PrincipalLimit, Reason, Settings}

-- A new debit row leaves unchanged which other rows are reversed.
is_reversed-debit_row :
    (now id org amount n : ℕ) (reason : Reason) (p : Option ℕ) (rows : List LedgerRow) (k : ℕ)
    → is_reversed (debit_row now id org amount n reason p ∷ rows) k ≡ is_reversed rows k
unfolding is_reversed
is_reversed-debit_row now id org amount n reason p rows k = refl

module _ (now new_id org amount n : ℕ) (reason : Reason) (principal : Option ℕ) (db : Db) where
  abbrev row : LedgerRow
  row = debit_row now new_id org amount n reason principal

  counts-debit_row :
      (r : LedgerRow)
      → counts now org (row ∷ db.org_credit_ledger) r ≡ counts now org db.org_credit_ledger r
  unfolding counts
  counts-debit_row r =
      rw (is_reversed-debit_row now new_id org amount n reason principal db.org_credit_ledger r.id)

  -- A debit adds at most its amount to the org's daily spend.
  pub daily_spend_after :
      get_daily_debit_spend now org (posted row n db) ≤ get_daily_debit_spend now org db + amount
  unfolding get_daily_debit_spend
  daily_spend_after = ground (
    arith,
    sum_where_congr (counts now org (row ∷ db.org_credit_ledger))
        (counts now org db.org_credit_ledger) (λ (r : LedgerRow). r.amount_usdc)
        db.org_credit_ledger counts-debit_row,
  )

  pub daily_principal_spend_after :
      (p : ℕ)
      → get_daily_principal_debit_spend now org p (posted row n db)
        ≤ get_daily_principal_debit_spend now org p db + amount
  unfolding get_daily_principal_debit_spend
  daily_principal_spend_after p = ground (
    arith,
    sum_where_congr (λ r. sql_eq r.principal_id p && counts now org (row ∷ db.org_credit_ledger) r)
        (λ r. sql_eq r.principal_id p && counts now org db.org_credit_ledger r)
        (λ (r : LedgerRow). r.amount_usdc) db.org_credit_ledger (λ r. rw (counts-debit_row r)),
  )

-- The limits hold after a charge: the org's, if it has one, and the principal's, if it has one.
pub record WithinLimits (s : Settings) (now org : ℕ) (principal : Option ℕ) (a : Account)
    (db db' : Db) : Type 0 where
  pub not_paused : a.is_paused ≡ false
  pub org_within : 0 < effective_limit s a → get_daily_debit_spend now org db' ≤ effective_limit s a
  pub principal_within :
      (p : ℕ) (l : PrincipalLimit)
      → principal ≡ some p
      → principal_limit org p db ≡ some l
      → (l.is_paused ≡ false) × (get_daily_principal_debit_spend now org p db' ≤ l.daily_limit_usdc)

module _ {s : Settings} {now new_id org amount : ℕ} {reason : Reason} {principal : Option ℕ}
    {db db' : Db} (c : Charged s now new_id org amount reason principal db db') where
  may_debit_parts :
      (c.held.is_paused ≡ false)
      × (org_admits s now org amount c.held db ≡ true)
      × (principal_admits now org amount principal db ≡ true)
  unfolding may_debit
  may_debit_parts =
      let may : may_debit s now org amount principal c.held db ≡ true = c.admitted in ground arith

  org_kept :
      0 < effective_limit s c.held → get_daily_debit_spend now org db' ≤ effective_limit s c.held
  unfolding org_admits
  org_kept some_limit =
      let n = c.held.balance_usdc - amount in
      let admits : org_admits s now org amount c.held db ≡ true = may_debit_parts.1 in
      rw c.written (ground (arith, daily_spend_after now new_id org amount n reason principal db))

  principal_kept :
      (p : ℕ) (l : PrincipalLimit)
      → principal ≡ some p
      → principal_limit org p db ≡ some l
      → (l.is_paused ≡ false) × (get_daily_principal_debit_spend now org p db' ≤ l.daily_limit_usdc)
  unfolding principal_admits
  principal_kept p l is_p found =
      let n = c.held.balance_usdc - amount in
      let admits : principal_admits now org amount (some p) db ≡ true =
        rw is_p at (may_debit_parts.2) in
      rw c.written (
        ground (
          arith,
          found,
          admits,
          daily_principal_spend_after now new_id org amount n reason principal db p,
        ))

  pub Charged-WithinLimits : WithinLimits s now org principal c.held db db'
  Charged-WithinLimits = record {
    not_paused = may_debit_parts.0;
    org_within = org_kept;
    principal_within = principal_kept;
  }

-- A debit of a positive amount that goes through found an account that is not paused, and leaves
-- the org's spend of the last 24 hours within its limit, if it has one, and the principal's within
-- the principal's, if there is one.
pub debit_credit-WithinLimits :
    (s : Settings) (now new_id org amount : ℕ) (reason : Reason) (principal : Option ℕ) (db : Db)
    → 0 < amount
    → (debit_credit s now new_id org amount reason principal db).0.0 ≡ true
    → (a : Account) × (account org db ≡ some a)
      × WithinLimits s now org principal a db
          (debit_credit s now new_id org amount reason principal db).1
debit_credit-WithinLimits s now new_id org amount reason principal db pos done =
    let c = debit_credit-Charged s now new_id org amount reason principal db pos done in
    (c.held, c.read, Charged-WithinLimits c)
