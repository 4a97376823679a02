-- ===== src/Settlement/Once.antt =====
-- A charge that a retry has settled is settled for good: another attempt with the same claim, such
-- as a worker that was late, changes nothing.
use teardrop.Common.{
  Bool, arith, false, inl, inr, leb, lookup, none, refl, some, true, ℕ, ◌+◌, ◌≡◌, ◌⊎◌,
}
use teardrop.Delegation.Funding.{held}
use teardrop.Schema.{BillingMethod, Db, PendingSettlement, Settings, credit_method, x402_method}
use teardrop.Settlement.{claimed_row, settle_claimed_credit, settled_row, update_claimed}
use teardrop.Settlement.Outcome.{Outcome, retry_one-Outcome}
use teardrop.Settlement.Retry.{after_attempt, retry_later, retry_one}

method-cases : (m : BillingMethod) → (m ≡ credit_method) ⊎ (m ≡ x402_method)
method-cases credit_method = inl refl
method-cases x402_method = inr refl

retry_one-lost :
    (s : Settings) (now entry earning id : ℕ) (row : PendingSettlement) (db : Db)
    → claimed_row id row.next_retry_at db ≡ none
    → (retry_one s now entry earning id row db).1 ≡ db
unfolding retry_one settle_claimed_credit retry_later update_claimed after_attempt
retry_one-lost s now entry earning id row db lost = elim (method-cases row.billing_method) [
  | inl e ↦ ground (arith, lost, e)
  | inr e ↦ ground (arith, lost, e)
]

claimed_row-settled :
    (id lease n : ℕ) (p : PendingSettlement) (db : Db)
    → lookup id db.pending_settlements ≡ some (settled_row n p)
    → claimed_row id lease db ≡ none
unfolding claimed_row
claimed_row-settled id lease n p db found = rw (found, claimed_row) refl

Outcome-true :
    (now id : ℕ) (row p : PendingSettlement) (db : Db) (r : Bool × Db)
    → Outcome now id row p db r
    → r.0 ≡ true
    → lookup id r.1.pending_settlements ≡ some (settled_row (row.retry_count + 1) p)
Outcome-true now id row p db (true, db') (_, found) done = found
Outcome-true now id row p db (false, db') h done = cc

-- When a retry of a credit charge whose claim is held has answered true, every later attempt with
-- the same claim, at any time and with any new ids, leaves the state as it is.
pub retry_one-once :
    (s : Settings) (now entry earning id : ℕ) (row p : PendingSettlement) (db : Db)
    (now' entry' earning' : ℕ)
    → claimed_row id row.next_retry_at db ≡ some p
    → row.billing_method ≡ credit_method
    → leb row.next_retry_at now ≡ false
    → (retry_one s now entry earning id row db).0 ≡ true
    → let after = (retry_one s now entry earning id row db).1 in
      (retry_one s now' entry' earning' id row after).1 ≡ after
retry_one-once s now entry earning id row p db now' entry' earning' held method live done =
    let r = retry_one s now entry earning id row db in
    let found =
      Outcome-true now id row p db r
        (retry_one-Outcome s now entry earning id row p db held method live) done in
    retry_one-lost s now' entry' earning' id row r.1
      (claimed_row-settled id row.next_retry_at (row.retry_count + 1) p r.1 found)
