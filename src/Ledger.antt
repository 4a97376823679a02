-- ===== src/Ledger.antt =====
-- The statements that every credit operation of billing/credit.py and billing/delegation.py is
-- made of: the account's SELECT, the balance UPDATE, the ledger INSERT with the table's
-- constraints, and the 24-hour sums. `now` is NOW(), one instant in a transaction.
pub mod Entry
pub mod Conservation
use teardrop.Common.{
  Bool, List, Option, exists, false, if◌then◌else◌, lookup, ltb, none, not, some, sum_where, true,
  upsert, ℕ, ◌&&◌, ◌+◌, ◌-◌, ◌==◌, ◌^◌, ◌∷◌,
}
use teardrop.Schema.{
  AcquisitionSource, Db, Failure, LedgerRow, Operation, OrgCredit, Result, Settings,
  check_violation, day_us, debit, err, foreign_key_violation, ok, other, out_of_range,
  runtime_error, since, siwe, topup, unique_violation, x402,
}

abbrev pub max_bigint : ℕ
max_bigint = 2 ^ 63 - 1

-- The join of org_credits and orgs that the gates read.
pub record Account : Type 0 where
  pub balance_usdc : ℕ
  pub spending_limit_usdc : ℕ
  pub is_paused : Bool
  pub acquisition_source : AcquisitionSource

unfoldable pub account : ℕ → Db → Option Account
account org db = elim (lookup org db.org_credits) [
  | none ↦ none
  | some c ↦ elim (lookup org db.orgs) [
    | none ↦ none
    | some o ↦ some (record {
      balance_usdc = c.balance_usdc;
      spending_limit_usdc = c.spending_limit_usdc;
      is_paused = c.is_paused;
      acquisition_source = o.acquisition_source;
    })
  ]
]

abbrev pub is_machine : AcquisitionSource → Bool
is_machine siwe = true
is_machine x402 = true
is_machine other = false

-- The daily limit that applies: a machine-provisioned org without one gets the setting's.
unfoldable pub effective_limit : Settings → Account → ℕ
effective_limit s a =
    if is_machine a.acquisition_source && a.spending_limit_usdc == 0
    then s.machine_org_daily_spend_limit_usdc
    else a.spending_limit_usdc

-- `column = value` in SQL, never true of NULL.
abbrev pub sql_eq : Option ℕ → ℕ → Bool
sql_eq none b = false
sql_eq (some a) b = a == b

abbrev pub is_debit : Operation → Bool
is_debit debit = true
is_debit topup = false

-- A row whose `reverses_ledger_id` is `id` stands in the ledger.
unfoldable pub is_reversed : List LedgerRow → ℕ → Bool
is_reversed rows id = exists (λ r. sql_eq r.reverses_ledger_id id) rows

-- A debit of the org in the last 24 hours that no row reverses.
unfoldable pub counts : ℕ → ℕ → List LedgerRow → LedgerRow → Bool
counts now org rows r =
    r.org_id == org
    && is_debit r.operation
    && since now day_us r.created_at
    && not (is_reversed rows r.id)

unfoldable pub get_daily_debit_spend : ℕ → ℕ → Db → ℕ
get_daily_debit_spend now org db =
    sum_where (counts now org db.org_credit_ledger) (λ r. r.amount_usdc) db.org_credit_ledger

unfoldable pub get_daily_principal_debit_spend : ℕ → ℕ → ℕ → Db → ℕ
get_daily_principal_debit_spend now org principal db =
    sum_where (λ r. sql_eq r.principal_id principal && counts now org db.org_credit_ledger r)
      (λ r. r.amount_usdc) db.org_credit_ledger

-- `col` of some row holds the value that `r` brings; NULLs never clash.
abbrev clashes : (LedgerRow → Option ℕ) → Option ℕ → List LedgerRow → Bool
clashes col none rows = false
clashes col (some v) rows = exists (λ r. sql_eq (col r) v) rows

-- The constraints of org_credit_ledger, in the order of their tests.
unfoldable pub ledger_violation : LedgerRow → Db → Option Failure
ledger_violation r db =
    if r.amount_usdc == 0
    then some check_violation
    else if exists (λ (v : LedgerRow). v.id == r.id) db.org_credit_ledger
    then some unique_violation
    else if clashes (λ v. v.external_ref) r.external_ref db.org_credit_ledger
    then some unique_violation
    else if clashes (λ v. v.reverses_ledger_id) r.reverses_ledger_id db.org_credit_ledger
    then some unique_violation
    else elim (lookup r.org_id db.orgs) [ none ↦ some foreign_key_violation | some _ ↦ none ]

-- INSERT INTO org_credit_ledger
unfoldable pub insert_ledger : LedgerRow → Db → Result Db
insert_ledger r db = elim (ledger_violation r db) [
  | none ↦ ok (record db { org_credit_ledger = r ∷ db.org_credit_ledger })
  | some e ↦ err e
]

-- SELECT balance_usdc FROM org_credits, 0 if there is no row.
unfoldable pub get_credit_balance : ℕ → Db → ℕ
get_credit_balance org db = elim (lookup org db.org_credits) [ none ↦ 0 | some c ↦ c.balance_usdc ]

-- The row of the org with its balance set: the column defaults where there is none yet.
unfoldable pub credit_row : ℕ → ℕ → Db → OrgCredit
credit_row org n db = elim (lookup org db.org_credits) [
  | none ↦ record { balance_usdc = n; spending_limit_usdc = 0; is_paused = false }
  | some c ↦ record c { balance_usdc = n }
]

-- The write of a balance: UPDATE org_credits SET balance_usdc = n, or the INSERT of the upsert.
unfoldable pub put_balance : ℕ → ℕ → Db → Db
put_balance org n db = record db { org_credits = upsert org (credit_row org n db) db.org_credits }

-- INSERT INTO org_credits … ON CONFLICT DO UPDATE SET balance_usdc = balance + amount RETURNING
unfoldable pub upsert_balance : ℕ → ℕ → Db → Result (ℕ × Db)
upsert_balance org amount db =
    let n = get_credit_balance org db + amount in
    if ltb max_bigint n then err out_of_range else elim (lookup org db.orgs) [
      | none ↦ err foreign_key_violation
      | some _ ↦ ok (n, put_balance org n db)
    ]

-- UPDATE org_credits SET balance_usdc = balance + amount RETURNING, and the raise on no row.
unfoldable pub add_balance : ℕ → ℕ → Db → Result (ℕ × Db)
add_balance org amount db = elim (lookup org db.org_credits) [
  | none ↦ err runtime_error
  | some c ↦
      let n = c.balance_usdc + amount in
      if ltb max_bigint n then err out_of_range else ok (n, put_balance org n db)
]
