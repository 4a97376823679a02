-- ===== src/Ledger/Conservation.antt =====
-- The invariant of the credit tables, for one org: the balance is what its ledger rows add up to,
-- and the newest row of the org states it.
use teardrop.Common.{
  Bool, List, arith, exists, false, find?, if◌then◌else◌, none, some, sum_where, true, ℕ, ◌&&◌, ◌+◌,
  ◌<◌, ◌==◌, ◌∷◌, ◌≡◌,
}
use teardrop.Ledger.{get_credit_balance, insert_ledger, is_debit, put_balance}
use teardrop.Ledger.Entry.{
  get_credit_balance-put_balance, insert_ledger-eq-ok, insert_ledger_checks,
}
use teardrop.Schema.{Db, LedgerRow, Operation, debit, ok, topup}

abbrev is_topup : Operation → Bool
is_topup debit = false
is_topup topup = true

-- The sum of the org's rows of one kind.
unfoldable pub debited_total : ℕ → List LedgerRow → ℕ
debited_total org = sum_where (λ r. r.org_id == org && is_debit r.operation) (λ r. r.amount_usdc)

unfoldable pub credited_total : ℕ → List LedgerRow → ℕ
credited_total org = sum_where (λ r. r.org_id == org && is_topup r.operation) (λ r. r.amount_usdc)

-- `balance_usdc_after` of the newest row of the org, 0 if it has none.
unfoldable pub last_balance : ℕ → List LedgerRow → ℕ
last_balance org rows = elim (find? (λ (r : LedgerRow). r.org_id == org) rows) [
  | none ↦ 0
  | some r ↦ r.balance_usdc_after
]

pub record IsConsistent (org : ℕ) (db : Db) : Type 0 where
  pub conserved :
      get_credit_balance org db + debited_total org db.org_credit_ledger
      ≡ credited_total org db.org_credit_ledger
  pub audited : last_balance org db.org_credit_ledger ≡ get_credit_balance org db

-- A balance write with the ledger row that goes with it.
abbrev pub posted : LedgerRow → ℕ → Db → Db
posted r n db = record (put_balance r.org_id n db) { org_credit_ledger = r ∷ db.org_credit_ledger }

-- The new balance of the row's org, by the row's operation.
abbrev pub Moves : LedgerRow → ℕ → ℕ → Type 0
Moves r old new = elim r.operation [
  | debit ↦ old ≡ new + r.amount_usdc
  | topup ↦ new ≡ old + r.amount_usdc
]

pub get_credit_balance-posted :
    (r : LedgerRow) (n k : ℕ) (db : Db)
    → get_credit_balance k (posted r n db) ≡ (if r.org_id == k then n else get_credit_balance k db)
unfolding get_credit_balance
get_credit_balance-posted r n k db = get_credit_balance-put_balance r.org_id k n db

-- A balance write and its row keep the invariant of every org.
pub posted-IsConsistent :
    (r : LedgerRow) (n k : ℕ) (db : Db)
    → r.balance_usdc_after ≡ n
    → Moves r (get_credit_balance r.org_id db) n
    → IsConsistent k db
    → IsConsistent k (posted r n db)
unfolding debited_total credited_total last_balance
posted-IsConsistent r n k db after moves h = record {
  conserved = ground (arith, get_credit_balance-posted r n k db);
  audited = ground (arith, get_credit_balance-posted r n k db);
}

-- A row that is accepted after the balance write gives the posted state.
pub insert_ledger-posted :
    (r : LedgerRow) (n : ℕ) (db : Db) {db' : Db}
    → insert_ledger r (put_balance r.org_id n db) ≡ ok db'
    → (db' ≡ posted r n db)
      × (0 < r.amount_usdc)
      × (exists (λ (v : LedgerRow). v.id == r.id) db.org_credit_ledger ≡ false)
unfolding put_balance
insert_ledger-posted r n db h =
    let (positive, fresh) = insert_ledger_checks r (put_balance r.org_id n db) h in
    (insert_ledger-eq-ok r (put_balance r.org_id n db) h, positive, fresh)
