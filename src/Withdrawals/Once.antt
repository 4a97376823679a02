-- ===== src/Withdrawals/Once.antt =====
-- A withdrawal that is claimed is not claimed again by what follows, until it is put back to pending.
use teardrop.Common.{==_refl, false, inl, inr, lookup-upsert, refl, ℕ, ◌≡◌, ◌≤◌}
use teardrop.Schema.{Db, OnOk-returned, Withdrawal, err, ok, value_error}
use teardrop.Withdrawals.{
  claim_earnings, claim_withdrawal, in_flight_row, is_withdrawal_pending, put_withdrawal,
  release_withdrawal, request, select_earnings_to_settle, settle_withdrawal, unfunded_row,
}
use teardrop.Withdrawals.Closed.{
  IsClosed, claim-IsClosed, complete-IsClosed, record_in_flight-IsClosed, release-IsClosed,
  request-IsClosed, reset-IsClosed, settle-IsClosed,
}
use teardrop.Withdrawals.Process.{complete_withdrawal}
use teardrop.Withdrawals.Selection.{claim_withdrawal-Claimed, claim_withdrawal-le}
use teardrop.Withdrawals.Steps.{
  WithdrawalStep, WithdrawalSteps, claimed, completed_it, elsewhere, no_withdrawal_steps,
  recorded_in_flight, released_it, requested, reset_other, settled_it, then_withdrawal_step,
}

WithdrawalStep-IsClosed :
    {id : ℕ} {db db' : Db} → WithdrawalStep id db db' → IsClosed id db → IsClosed id db'
WithdrawalStep-IsClosed {id} (requested s now new_id org amount {db = db} h) still =
    OnOk-returned _ (request s now new_id org amount db) h
      (request-IsClosed id db still s now new_id org amount)
WithdrawalStep-IsClosed {id} (claimed j {db = db} {r = r} h) still =
    claim-IsClosed id db still j r h
WithdrawalStep-IsClosed {id} (settled_it now j tx {db = db} h) still =
    OnOk-returned _ (settle_withdrawal now j tx db) h (settle-IsClosed id db still now j tx)
WithdrawalStep-IsClosed {id} (released_it j {db = db} h) still =
    OnOk-returned _ (release_withdrawal j db) h (release-IsClosed id db still j)
WithdrawalStep-IsClosed {id} (recorded_in_flight j tx {db}) still =
    record_in_flight-IsClosed id db still j tx
WithdrawalStep-IsClosed {id} (completed_it now j tx {db = db} h) still =
    OnOk-returned _ (complete_withdrawal now j tx db) h (complete-IsClosed id db still now j tx)
WithdrawalStep-IsClosed {id} (reset_other j {db} apart) still = reset-IsClosed id db still j apart
WithdrawalStep-IsClosed {id} (elsewhere same) (w, found, closed) = (w, rw same found, closed)

WithdrawalSteps-IsClosed :
    {id : ℕ} {db db' : Db} → WithdrawalSteps id db db' → IsClosed id db → IsClosed id db'
WithdrawalSteps-IsClosed no_withdrawal_steps still = still
WithdrawalSteps-IsClosed (then_withdrawal_step steps step) still =
    WithdrawalStep-IsClosed step (WithdrawalSteps-IsClosed steps still)

claim-closed : (id : ℕ) (db : Db) → IsClosed id db → claim_withdrawal id db ≡ err value_error
unfolding claim_withdrawal
claim-closed id db (w, found, closed) = rw (found, claim_withdrawal) (rw closed refl)

claimed-IsClosed :
    (id : ℕ) (db : Db) (r : (Withdrawal × ℕ) × Db) → claim_withdrawal id db ≡ ok r → IsClosed id r.1
claimed-IsClosed id db r h =
    let c = claim_withdrawal-Claimed id db r h in
    let row : (w : Withdrawal) (d : Db)
        → is_withdrawal_pending w.status ≡ false
        → IsClosed id (put_withdrawal id w d) =
      λ w d closed.
        (w, rw (lookup-upsert id id w d.tool_author_withdrawals, ==_refl id) refl, closed) in
    elim c.taken [
      | inl e ↦ rw e (row (unfunded_row c.row) db refl)
      | inr e ↦ rw e (
          row (in_flight_row c.row)
            (claim_earnings id (select_earnings_to_settle c.row.org_id c.row.amount_usdc db).0 db)
            refl)
    ]

-- A claim transfers at most the amount that was asked for; and after any requests, claims, outcomes
-- of transfers and completions of any withdrawals, resets of others, and any writes to the other
-- tables, the claimed withdrawal cannot be claimed. What puts it back to pending, the
-- administrator's reset of it and the sweep's retry of it, is not among these steps.
pub claim_withdrawal-once :
    (id : ℕ) (db db' : Db) (r : (Withdrawal × ℕ) × Db)
    → claim_withdrawal id db ≡ ok r
    → WithdrawalSteps id r.1 db'
    → (r.0.1 ≤ r.0.0.amount_usdc) × (claim_withdrawal id db' ≡ err value_error)
claim_withdrawal-once id db db' r h steps = (
  claim_withdrawal-le id db r h,
  claim-closed id db' (WithdrawalSteps-IsClosed steps (claimed-IsClosed id db r h)),
)
