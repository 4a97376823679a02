-- ===== src/Credit/Settled.antt =====
-- The two ways in which `debit_credit` ends, and the invariant of the credit tables.
use teardrop.Common.{
  Bool, Bool-cases, Option, arith, false, if◌then◌else◌, inl, inr, refl, true, ℕ, ◌+◌, ◌<◌, ◌==◌,
  ◌≡◌,
}
use teardrop.Credit.{Debit, debit_credit, debit_credit_locked, debit_tx, debited, declined}
use teardrop.Credit.Charge.{
  Charged, Charged-IsConsistent, Charged-balance, Debits, debit_credit_locked-Debits,
}
use teardrop.Ledger.{get_credit_balance}
use teardrop.Ledger.Conservation.{IsConsistent}
use teardrop.Schema.{Db, Reason, Result, Settings, err, ok, or_rollback}

-- All of the amount is taken, from this org alone, or nothing has changed.
abbrev pub AllOrNothing : ℕ → ℕ → Db → (Bool × ℕ) × Db → Type 0
AllOrNothing org amount db ((true, n), db') =
    (n ≡ amount)
    × ((k : ℕ)
        → get_credit_balance k db' + (if org == k then amount else 0) ≡ get_credit_balance k db)
AllOrNothing org amount db ((false, n), db') = (n ≡ 0) × (db' ≡ db)

module _ (s : Settings) (now new_id org amount : ℕ) (reason : Reason) (principal : Option ℕ)
    (db : Db) where
  answer-AllOrNothing :
      (r : Result (Debit × Db))
      → Debits s now new_id org amount reason principal db r
      → AllOrNothing org amount db (or_rollback db (false, 0) (debit_tx r))
  unfolding debit_tx
  answer-AllOrNothing (ok (declined, db')) h = (refl, h)
  answer-AllOrNothing (ok (debited n id, db')) (same, _, c) = (same, Charged-balance c)
  answer-AllOrNothing (err e) h = (refl, refl)

  -- A debit takes exactly its amount from exactly its org and says so, or it takes nothing, says
  -- so, and leaves the whole state as it was. An amount of 0 succeeds and takes 0.
  pub debit_credit-AllOrNothing :
      AllOrNothing org amount db (debit_credit s now new_id org amount reason principal db)
  unfolding debit_credit
  debit_credit-AllOrNothing = elim (Bool-cases (amount == 0)) [
    | inl zero_amount ↦
        rw (zero_amount, debit_credit, AllOrNothing) (ground arith, λ k. ground arith)
    | inr positive ↦
        rw (positive, debit_credit, AllOrNothing)
          (answer-AllOrNothing (debit_credit_locked s now new_id org amount reason principal db)
            (debit_credit_locked-Debits s now new_id org amount reason principal db))
  ]

  answer-IsConsistent :
      (r : Result (Debit × Db)) (k : ℕ)
      → Debits s now new_id org amount reason principal db r
      → IsConsistent k db
      → IsConsistent k (or_rollback db (false, 0) (debit_tx r)).1
  unfolding debit_tx
  answer-IsConsistent (ok (declined, db')) k h v = rw h v
  answer-IsConsistent (ok (debited n id, db')) k (_, _, c) v = Charged-IsConsistent c k v
  answer-IsConsistent (err e) k h v = v

  -- A debit keeps the balance of every org equal to the sum of its ledger rows, with the newest row
  -- stating it, whatever it answers.
  pub debit_credit-IsConsistent :
      (k : ℕ)
      → IsConsistent k db
      → IsConsistent k (debit_credit s now new_id org amount reason principal db).1
  unfolding debit_credit
  debit_credit-IsConsistent k v = elim (Bool-cases (amount == 0)) [
    | inl zero_amount ↦ rw (zero_amount, debit_credit) v
    | inr positive ↦
        rw (positive, debit_credit)
          (answer-IsConsistent (debit_credit_locked s now new_id org amount reason principal db) k
            (debit_credit_locked-Debits s now new_id org amount reason principal db) v)
  ]

  answer-Charged :
      (r : Result (Debit × Db))
      → Debits s now new_id org amount reason principal db r
      → (or_rollback db (false, 0) (debit_tx r)).0.0 ≡ true
      → Charged s now new_id org amount reason principal db
          (or_rollback db (false, 0) (debit_tx r)).1
  unfolding debit_tx
  answer-Charged (ok (declined, db')) h done = cc
  answer-Charged (ok (debited n id, db')) (_, _, c) done = c
  answer-Charged (err e) h done = cc

  -- A positive amount that was taken is one charge.
  pub debit_credit-Charged :
      0 < amount
      → (debit_credit s now new_id org amount reason principal db).0.0 ≡ true
      → Charged s now new_id org amount reason principal db
          (debit_credit s now new_id org amount reason principal db).1
  unfolding debit_credit
  debit_credit-Charged pos =
      let nonzero : (amount == 0) ≡ false = ground arith in
      rw (nonzero, debit_credit)
        (answer-Charged (debit_credit_locked s now new_id org amount reason principal db)
          (debit_credit_locked-Debits s now new_id org amount reason principal db))
