-- ===== src/Withdrawals/Selection.antt =====
-- What a withdrawal pays is at most what was asked for.
use teardrop.Common.{
  Bool-cases, List, Option-cases, [], arith, inl, inr, lookup, not, select, some, ℕ, ◌&&◌, ◌-◌,
  ◌==◌, ◌∷◌, ◌≡◌, ◌≤◌, ◌⊎◌,
}
use teardrop.Schema.{Db, Earning, Withdrawal, ok}
use teardrop.Withdrawals.{
  claim_earnings, claim_withdrawal, in_flight_row, is_unclaimed, is_withdrawal_pending,
  put_withdrawal, select_earnings_to_settle, select_loop, sort_by_age, unfunded_row,
}

select_loop-le : (remaining : ℕ) (rows : List Earning) → (select_loop remaining rows).1 ≤ remaining
unfolding select_loop
select_loop-le remaining [] = omega arith
select_loop-le remaining (e ∷ rest) =
    ground
      (arith, select_loop-le remaining rest, select_loop-le (remaining - e.author_share_usdc) rest)

select_earnings_to_settle-le :
    (org amount : ℕ) (db : Db) → (select_earnings_to_settle org amount db).1 ≤ amount
unfolding select_earnings_to_settle
select_earnings_to_settle-le org amount db =
    select_loop-le amount
      (sort_by_age (select (λ e. e.org_id == org && is_unclaimed e) db.tool_author_earnings))

-- The claim of a pending withdrawal, with no earnings for it, or with those that were selected.
pub record Claimed (id : ℕ) (db : Db) (r : (Withdrawal × ℕ) × Db) : Type 0 where
  pub row : Withdrawal
  pub found : lookup id db.tool_author_withdrawals ≡ some row
  pub taken :
      let chosen = select_earnings_to_settle row.org_id row.amount_usdc db in
      (r ≡ ((unfunded_row row, 0), put_withdrawal id (unfunded_row row) db))
      ⊎ (r ≡ (
        (in_flight_row row, chosen.1),
        put_withdrawal id (in_flight_row row) (claim_earnings id chosen.0 db),
      ))

pub claim_withdrawal-Claimed :
    (id : ℕ) (db : Db) (r : (Withdrawal × ℕ) × Db) → claim_withdrawal id db ≡ ok r → Claimed id db r
unfolding claim_withdrawal
claim_withdrawal-Claimed id db r h = elim (Option-cases (lookup id db.tool_author_withdrawals)) [
  | inl missing ↦ cc (rw (missing, claim_withdrawal) at h)
  | inr (w, found) ↦ elim (Bool-cases (not (is_withdrawal_pending w.status))) [
    | inl closed ↦ cc (rw (found, closed, claim_withdrawal) at h)
    | inr fresh ↦ elim (Bool-cases ((select_earnings_to_settle w.org_id w.amount_usdc db).1 == 0)) [
      | inl empty ↦
          let outcome = rw (found, fresh, empty, claim_withdrawal) at h in
          record { row = w; found = found; taken = inl (cc outcome) }
      | inr some_total ↦
          let outcome = rw (found, fresh, some_total, claim_withdrawal) at h in
          record { row = w; found = found; taken = inr (cc outcome) }
    ]
  ]
]

pub claim_withdrawal-le :
    (id : ℕ) (db : Db) (r : (Withdrawal × ℕ) × Db)
    → claim_withdrawal id db ≡ ok r
    → r.0.1 ≤ r.0.0.amount_usdc
claim_withdrawal-le id db r h =
    let c = claim_withdrawal-Claimed id db r h in
    elim c.taken [
      | inl e ↦ rw e (omega arith)
      | inr e ↦ rw e (select_earnings_to_settle-le c.row.org_id c.row.amount_usdc db)
    ]
