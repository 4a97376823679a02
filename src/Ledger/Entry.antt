-- ===== src/Ledger/Entry.antt =====
-- What an accepted ledger INSERT and a balance write do to the rest of the state.
use teardrop.Common.{
  arith, exists, false, if◌then◌else◌, lookup-upsert, ℕ, ◌+◌, ◌<◌, ◌==◌, ◌∷◌, ◌≡◌, ◌≤◌,
}
use teardrop.Ledger.{
  add_balance, credit_row, get_credit_balance, insert_ledger, ledger_violation, max_bigint,
  put_balance, upsert_balance,
}
use teardrop.Schema.{Db, LedgerRow, ok}

-- An accepted row stands first in the ledger, and nothing else of the state changes.
pub insert_ledger-eq-ok :
    (r : LedgerRow) (db : Db) {db' : Db}
    → insert_ledger r db ≡ ok db'
    → db' ≡ record db { org_credit_ledger = r ∷ db.org_credit_ledger }
unfolding insert_ledger
insert_ledger-eq-ok r db h = ground arith

-- An accepted row has a positive amount and a new id.
pub insert_ledger_checks :
    (r : LedgerRow) (db : Db) {db' : Db}
    → insert_ledger r db ≡ ok db'
    → (0 < r.amount_usdc) × (exists (λ (v : LedgerRow). v.id == r.id) db.org_credit_ledger ≡ false)
unfolding insert_ledger ledger_violation
insert_ledger_checks r db h = ground arith

balance-credit_row : (org n : ℕ) (db : Db) → (credit_row org n db).balance_usdc ≡ n
unfolding credit_row
balance-credit_row org n db = ground arith

pub get_credit_balance-put_balance :
    (org k n : ℕ) (db : Db)
    → get_credit_balance k (put_balance org n db)
      ≡ (if org == k then n else get_credit_balance k db)
unfolding get_credit_balance put_balance
get_credit_balance-put_balance org k n db =
    ground
      (arith, lookup-upsert org k (credit_row org n db) db.org_credits, balance-credit_row org n db)

-- The addition to an account that may be missing.
pub upsert_balance-eq-ok :
    (org amount : ℕ) (db : Db) {n : ℕ} {db' : Db}
    → upsert_balance org amount db ≡ ok (n, db')
    → (n ≡ get_credit_balance org db + amount) × (n ≤ max_bigint) × (db' ≡ put_balance org n db)
unfolding upsert_balance
upsert_balance-eq-ok org amount db h = ground arith

pub add_balance-eq-ok :
    (org amount : ℕ) (db : Db) {n : ℕ} {db' : Db}
    → add_balance org amount db ≡ ok (n, db')
    → (n ≡ get_credit_balance org db + amount) × (n ≤ max_bigint) × (db' ≡ put_balance org n db)
unfolding add_balance get_credit_balance
add_balance-eq-ok org amount db h = ground arith
