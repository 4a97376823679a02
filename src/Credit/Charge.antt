-- ===== src/Credit/Charge.antt =====
-- What `debit_credit` does to the balance, the ledger and the other accounts.
use teardrop.Common.{
  Bool-cases, Option, Option-cases, arith, exists, false, if◌then◌else◌, inl, inr, refl, some, true,
  ℕ, ◌+◌, ◌-◌, ◌<◌, ◌==◌, ◌≡◌, ◌≤◌,
}
use teardrop.Credit.{Debit, debit_credit_locked, debit_row, debited, declined, may_debit}
use teardrop.Ledger.{Account, account, get_credit_balance, insert_ledger, put_balance}
use teardrop.Ledger.Conservation.{
  IsConsistent, get_credit_balance-posted, insert_ledger-posted, posted, posted-IsConsistent,
}
use teardrop.Schema.{Db, LedgerRow, Reason, Result, Result-cases, Settings, err, ok}

-- A debit that went through: the account read, its tests passed, and the row written.
pub record Charged (s : Settings) (now new_id org amount : ℕ) (reason : Reason)
    (principal : Option ℕ) (db db' : Db) : Type 0 where
  pub held : Account
  pub read : account org db ≡ some held
  pub admitted : may_debit s now org amount principal held db ≡ true
  pub written :
      let n = held.balance_usdc - amount in
      db' ≡ posted (debit_row now new_id org amount n reason principal) n db
  pub fresh : exists (λ (v : LedgerRow). v.id == new_id) db.org_credit_ledger ≡ false
  pub positive : 0 < amount

-- How `_debit_credit_locked` can end: refused with nothing changed, or charged.
abbrev pub Debits : Settings → ℕ → ℕ → ℕ → ℕ → Reason → Option ℕ → Db → Result (Debit × Db) → Type 0
Debits s now new_id org amount reason principal db (ok (declined, db')) = db' ≡ db
Debits s now new_id org amount reason principal db (ok (debited n id, db')) =
    (n ≡ amount) × (id ≡ new_id) × Charged s now new_id org amount reason principal db db'
Debits s now new_id org amount reason principal db (err e) = Unit

module _ (s : Settings) (now new_id org amount : ℕ) (reason : Reason) (principal : Option ℕ)
    (db : Db) where
  charged :
      (a : Account) (db' : Db)
      → account org db ≡ some a
      → may_debit s now org amount principal a db ≡ true
      → insert_ledger
          (debit_row now new_id org amount (a.balance_usdc - amount) reason principal)
          (put_balance org (a.balance_usdc - amount) db)
        ≡ ok db'
      → Charged s now new_id org amount reason principal db db'
  charged a db' found may inserted =
      let n = a.balance_usdc - amount in
      let row = debit_row now new_id org amount n reason principal in
      let (written, positive, fresh) = insert_ledger-posted row n db inserted in
      record {
        held = a;
        read = found;
        admitted = may;
        written = written;
        fresh = fresh;
        positive = positive;
      }

  pub debit_credit_locked-Debits :
      Debits s now new_id org amount reason principal db
        (debit_credit_locked s now new_id org amount reason principal db)
  unfolding debit_credit_locked
  debit_credit_locked-Debits = elim (Option-cases (account org db)) [
    | inl missing ↦ rw (missing, debit_credit_locked, Debits) refl
    | inr (a, found) ↦ elim (Bool-cases (may_debit s now org amount principal a db)) [
      | inr barred ↦ rw (found, debit_credit_locked, barred, Debits) refl
      | inl may ↦
          let n = a.balance_usdc - amount in
          let row = debit_row now new_id org amount n reason principal in
          elim (Result-cases (insert_ledger row (put_balance org n db))) [
            | inr (e, raised) ↦ rw (found, may, raised, debit_credit_locked, Debits) tt
            | inl (db', inserted) ↦
                rw (found, may, inserted, debit_credit_locked, Debits)
                  (refl, refl, charged a db' found may inserted)
          ]
    ]
  ]

balance-account :
    (org : ℕ) (db : Db) (a : Account)
    → account org db ≡ some a
    → get_credit_balance org db ≡ a.balance_usdc
unfolding account get_credit_balance
balance-account org db a h = ground arith

-- The tests end with `balance >= amount`, so the subtraction is exact.
may_debit-covered :
    (s : Settings) (now org amount : ℕ) (principal : Option ℕ) (a : Account) (db : Db)
    → may_debit s now org amount principal a db ≡ true
    → amount ≤ a.balance_usdc
unfolding may_debit
may_debit-covered s now org amount principal a db h = ground arith

module _ {s : Settings} {now new_id org amount : ℕ} {reason : Reason} {principal : Option ℕ}
    {db db' : Db} (c : Charged s now new_id org amount reason principal db db') where
  -- The balance falls by the amount, and no other org's balance changes.
  pub Charged-balance :
      (k : ℕ)
      → get_credit_balance k db' + (if org == k then amount else 0) ≡ get_credit_balance k db
  Charged-balance k =
      let n = c.held.balance_usdc - amount in
      rw c.written (
        ground (
          arith,
          get_credit_balance-posted (debit_row now new_id org amount n reason principal) n k db,
          balance-account org db c.held c.read,
          may_debit-covered s now org amount principal c.held db c.admitted,
        ))

  pub Charged-IsConsistent : (k : ℕ) → IsConsistent k db → IsConsistent k db'
  Charged-IsConsistent k h =
      let n = c.held.balance_usdc - amount in
      rw c.written (
        posted-IsConsistent (debit_row now new_id org amount n reason principal) n k db refl
          (omega (
            arith,
            balance-account org db c.held c.read,
            may_debit-covered s now org amount principal c.held db c.admitted,
          ))
          h)
