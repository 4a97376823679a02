-- ===== src/Topup.antt =====
-- The operations of billing/credit.py that add credit: top-ups, which are idempotent by their
-- external reference, and the onboarding grant with its marker and its outbox.
pub mod Laws
pub mod Grants
pub mod Bootstrap
use teardrop.Common.{
  Bool, List, Option, [], exists, false, find?, if◌then◌else◌, lookup, none, not, remove, some,
  take, upsert, ℕ, ◌&&◌, ◌+◌, ◌==◌, ◌∷◌,
}
use teardrop.Ledger.{get_credit_balance, insert_ledger, is_debit, sql_eq, upsert_balance}
use teardrop.Schema.{
  Db, Grant, GrantOutbox, LedgerRow, Reason, Result, err, ok, onboarding_grant, topup,
  unique_violation, value_error, ◌>>=◌,
}

abbrev pub topup_row : ℕ → ℕ → ℕ → ℕ → ℕ → Reason → Option ℕ → LedgerRow
topup_row now id org amount new_balance reason ref = record {
  id = id;
  org_id = org;
  operation = topup;
  amount_usdc = amount;
  balance_usdc_after = new_balance;
  reason = reason;
  principal_id = none;
  external_ref = ref;
  reverses_ledger_id = none;
  created_at = now;
}

-- The balance upsert and the ledger row that every top-up consists of.
unfoldable pub credit_topup : ℕ → ℕ → ℕ → ℕ → Reason → Option ℕ → Db → Result (ℕ × Db)
credit_topup now new_id org amount reason ref db = do
  (new_balance, db') ← upsert_balance org amount db
  db'' ← insert_ledger (topup_row now new_id org amount new_balance reason ref) db'
  ok (new_balance, db'')

-- The row that holds an external reference.
unfoldable pub referenced : ℕ → Db → Option LedgerRow
referenced ref db = find? (λ (r : LedgerRow). sql_eq r.external_ref ref) db.org_credit_ledger

-- The `except UniqueViolation`: the same top-up again is the current balance, else it is raised.
replayed : ℕ → ℕ → Option ℕ → Db → Result (ℕ × Db)
unfolding referenced
replayed org amount none db = err unique_violation
replayed org amount (some ref) db = elim (referenced ref db) [
  | none ↦ err unique_violation
  | some r ↦
      if r.org_id == org && r.amount_usdc == amount
      then ok (get_credit_balance org db, db)
      else err unique_violation
]

or_replayed : ℕ → ℕ → Option ℕ → Db → Result (ℕ × Db) → Result (ℕ × Db)
or_replayed org amount ref db (ok r) = ok r
or_replayed org amount ref db (err unique_violation) = replayed org amount ref db
or_replayed org amount ref db (err e) = err e

-- An `err` is raised to the caller, and the transaction is rolled back.
unfoldable pub admin_topup_credit : ℕ → ℕ → ℕ → ℕ → Reason → Option ℕ → Db → Result (ℕ × Db)
unfolding or_replayed replayed
admin_topup_credit now new_id org amount reason ref db =
    or_replayed org amount ref db (credit_topup now new_id org amount reason ref db)

-- The grant marker, then the balance and the ledger row, in one transaction.
unfoldable pub grant_onboarding_credit : ℕ → ℕ → ℕ → ℕ → Db → Result (ℕ × Db)
grant_onboarding_credit now new_id org amount db =
    if amount == 0 then err value_error else elim (lookup org db.org_onboarding_credit_grants) [
      | some _ ↦ ok (0, db)
      | none ↦ do
        let marker : Grant = record { amount_usdc = amount; ledger_entry_id = new_id }
        let marked : Db = record db {
          org_onboarding_credit_grants = upsert org marker db.org_onboarding_credit_grants;
        }
        (_, db') ← credit_topup now new_id org amount onboarding_grant none marked
        ok (amount, db')
    ]

-- A grant was made, and no other top-up since.
unfoldable pub is_promotional_credit : ℕ → Db → Bool
is_promotional_credit org db = elim (lookup org db.org_onboarding_credit_grants) [
  | none ↦ false
  | some g ↦ not (
      exists
        (λ (r : LedgerRow).
          r.org_id == org && not (is_debit r.operation) && not (r.id == g.ledger_entry_id))
        db.org_credit_ledger)
]

clear_onboarding_credit_outbox : ℕ → Db → Db
clear_onboarding_credit_outbox org db = record db {
  org_onboarding_credit_outbox = remove org db.org_onboarding_credit_outbox;
}

-- The `except` of the loop: one more attempt is recorded on the row.
count_attempt : ℕ → Db → Db
count_attempt org db = elim (lookup org db.org_onboarding_credit_outbox) [
  | none ↦ db
  | some q ↦ record db {
    org_onboarding_credit_outbox =
        upsert org (record q { attempts = q.attempts + 1 }) db.org_onboarding_credit_outbox;
  }
]

retry_grant : Result (ℕ × Db) → ℕ → Db → ℕ × Db
unfolding clear_onboarding_credit_outbox count_attempt
retry_grant (ok (_, db')) org db = (1, clear_onboarding_credit_outbox org db')
retry_grant (err e) org db = (0, count_attempt org db)

-- The loop over the fetched rows; row i of the pass gets the uuid `id + i`.
process_rows : ℕ → ℕ → List (ℕ × GrantOutbox) → Db → ℕ × Db
unfolding retry_grant
process_rows now id [] db = (0, db)
process_rows now id ((org, q) ∷ rest) db =
    let (done, db') = retry_grant (grant_onboarding_credit now id org q.amount_usdc db) org db in
    let (more, db'') = process_rows now (id + 1) rest db' in (done + more, db'')

unfoldable pub process_onboarding_credit_outbox : ℕ → ℕ → ℕ → Db → ℕ × Db
unfolding process_rows
process_onboarding_credit_outbox now id limit db =
    process_rows now id (take limit db.org_onboarding_credit_outbox) db
