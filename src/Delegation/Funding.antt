-- ===== src/Delegation/Funding.antt =====
-- The funding transaction: it debits and opens the row together, or does neither, and a repeated
-- call answers from the row.
use teardrop.Common.{
  Bool, Option, Option-cases, arith, false, if◌then◌else◌, inl, inr, lookup, none, refl, some, true,
  ℕ, ◌+◌, ◌-◌, ◌<◌, ◌==◌, ◌≡◌,
}
use teardrop.Credit.{Debit, debit_credit_locked, debit_row, debited, declined}
use teardrop.Credit.Charge.{
  Charged, Charged-IsConsistent, Charged-balance, Debits, debit_credit_locked-Debits,
}
use teardrop.Delegation.{
  debit_credit_with_delegation_refund, fund_outbox, is_open, new_outbox, outbox_row, put_outbox,
}
use teardrop.Delegation.Closing.{outbox_row-write}
use teardrop.Delegation.Lifecycle.{AllLegal, AllLegal-upsert, outbox-posted}
use teardrop.Ledger.{get_credit_balance}
use teardrop.Ledger.Conservation.{IsConsistent}
use teardrop.Schema.{Db, Reason, Result, Settings, err, ok, or_rollback, ◌>>=◌}

Charged-outbox :
    {s : Settings} {now new_id org amount : ℕ} {reason : Reason} {principal : Option ℕ}
    {db db' : Db}
    → Charged s now new_id org amount reason principal db db'
    → db'.a2a_delegation_refund_outbox ≡ db.a2a_delegation_refund_outbox
Charged-outbox {now} {new_id} {org} {amount} {reason} {principal} {db} c =
    let n = c.held.balance_usdc - amount in
    rw c.written (outbox-posted (debit_row now new_id org amount n reason principal) n db)

-- What is held for a delegation that is not resolved.
unfoldable pub held : ℕ → ℕ → Db → ℕ
held org id db = elim (outbox_row org id db) [
  | none ↦ 0
  | some o ↦ if is_open o.status then o.amount_usdc else 0
]

-- A delegation that the call has funded.
pub record Funded (now entry org amount id run_id : ℕ) (db db' : Db) : Type 0 where
  pub opened : outbox_row org id db' ≡ some (new_outbox now org run_id amount entry)
  pub paid :
      (k : ℕ)
      → get_credit_balance k db' + (if org == k then amount else 0) ≡ get_credit_balance k db
  pub consistent : (k : ℕ) → IsConsistent k db → IsConsistent k db'
  pub legal : AllLegal db.a2a_delegation_refund_outbox → AllLegal db'.a2a_delegation_refund_outbox

-- How a first call for an id ends.
abbrev pub Funds : ℕ → ℕ → ℕ → ℕ → ℕ → ℕ → Db → (Bool × ℕ) × Db → Type 0
Funds now entry org amount id run_id db ((true, n), db') =
    (n ≡ amount) × Funded now entry org amount id run_id db db'
Funds now entry org amount id run_id db ((false, n), db') = (n ≡ 0) × (db' ≡ db)

module _ (s : Settings) (now entry org amount : ℕ) (reason : Reason) (id run_id : ℕ)
    (principal : Option ℕ) (db : Db) where
  funded :
      {db' : Db}
      → Charged s now entry org amount reason principal db db'
      → Funded now entry org amount id run_id db
          (put_outbox id (new_outbox now org run_id amount entry) db')
  unfolding get_credit_balance
  funded {db'} c = record {
    opened = outbox_row-write org id (new_outbox now org run_id amount entry) db' refl;
    paid = λ k. Charged-balance c k;
    consistent = λ k v.
        let w = Charged-IsConsistent c k v in
        record { conserved = w.conserved; audited = w.audited };
    legal = λ all.
        AllLegal-upsert id (new_outbox now org run_id amount entry) db'.a2a_delegation_refund_outbox
          tt (rw (Charged-outbox c) all);
  }

  fund_outbox-Funds :
      (r : Result (Debit × Db))
      → Debits s now entry org amount reason principal db r
      → Funds now entry org amount id run_id db
          (or_rollback db (false, 0) (r >>= fund_outbox now org run_id id))
  unfolding fund_outbox
  fund_outbox-Funds (ok (declined, db')) h = (refl, h)
  fund_outbox-Funds (ok (debited n e, db')) (n_eq, e_eq, c) =
      elim (Option-cases (lookup id db'.a2a_delegation_refund_outbox)) [
        | inr (o, taken) ↦ rw (taken, fund_outbox, Funds) (refl, refl)
        | inl free ↦ rw (free, fund_outbox, Funds) (n_eq, rw (n_eq, e_eq) (funded c))
      ]
  fund_outbox-Funds (err e) h = (refl, refl)

  -- A first funding of a positive amount, for an id that the org has not used, answers
  -- (true, amount), with the balance down by the amount and the row open, or (false, 0) with the
  -- state as it was. A funded state keeps the invariants of the ledger and of the outbox.
  pub debit_credit_with_delegation_refund-Funds :
      0 < amount
      → outbox_row org id db ≡ none
      → Funds now entry org amount id run_id db
          (debit_credit_with_delegation_refund s now entry org amount reason id run_id principal db)
  unfolding debit_credit_with_delegation_refund
  debit_credit_with_delegation_refund-Funds pos unused =
      let nonzero : (amount == 0) ≡ false = ground arith in
      rw (nonzero, unused, debit_credit_with_delegation_refund)
        (fund_outbox-Funds (debit_credit_locked s now entry org amount reason principal db)
          (debit_credit_locked-Debits s now entry org amount reason principal db))
