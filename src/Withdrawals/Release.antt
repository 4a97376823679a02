-- ===== src/Withdrawals/Release.antt =====
-- A claim takes earnings out of reach, and a release gives exactly those back.
use teardrop.Common.{
  ==_refl, All, Bool-cases, List, Option, [], arith, false, inl, inr, lookup-upsert, none, refl,
  some, true, update_where, ℕ, ◌<◌, ◌∷◌, ◌≡◌,
}
use teardrop.Schema.{Db, Earning, EarningStatus, Withdrawal, earning_pending, earning_settled, ok}
use teardrop.Withdrawals.{
  claim_earnings, claim_withdrawal, claimed_earning, in_flight_row, is_chosen, is_claimed_by,
  is_unclaimed, put_withdrawal, release_earnings, release_withdrawal, released_earning,
  select_earnings_to_settle, unfunded_row,
}
use teardrop.Withdrawals.Selection.{claim_withdrawal-Claimed}

unclaimed-row :
    (e : Earning) (st : EarningStatus) (w : Option ℕ)
    → is_unclaimed (record e { status = st; withdrawal_id = w }) ≡ true
    → record e { status = earning_pending; withdrawal_id = none }
      ≡ record e { status = st; withdrawal_id = w }
unclaimed-row e earning_pending none h = refl
unclaimed-row e earning_pending (some i) h = cc
unclaimed-row e earning_settled w h = cc

released-claimed :
    (id : ℕ) (e : Earning)
    → is_unclaimed e ≡ true
    → (is_claimed_by id (claimed_earning id e) ≡ true)
      × (released_earning (claimed_earning id e) ≡ e)
released-claimed id e free = (==_refl id, unclaimed-row e e.status e.withdrawal_id free)

release-claim :
    (id : ℕ) (ids : List ℕ) (rows : List Earning)
    → All (λ e. is_claimed_by id e ≡ false) rows
    → update_where
        (is_claimed_by id)
        released_earning
        (update_where (is_chosen ids) (claimed_earning id) rows)
      ≡ rows
release-claim id ids [] h = refl
release-claim id ids (e ∷ rest) (he, hs) = elim (Bool-cases (is_chosen ids e)) [
  | inl chosen ↦
      let (claimed, same) = released-claimed id e (ground arith) in
      rw (chosen, claimed, same, release-claim id ids rest hs) refl
  | inr passed ↦ rw (passed, he, release-claim id ids rest hs) refl
]

-- A claim that takes something from the earnings, where no earning carries the withdrawal's id yet,
-- followed by the release of a failed transfer, leaves the earnings exactly as they were.
pub release_withdrawal-claim_withdrawal :
    (id : ℕ) (db : Db) (r : (Withdrawal × ℕ) × Db)
    → All (λ e. is_claimed_by id e ≡ false) db.tool_author_earnings
    → claim_withdrawal id db ≡ ok r
    → 0 < r.0.1
    → (after : Db) × (release_withdrawal id r.1 ≡ ok (tt, after))
      × (after.tool_author_earnings ≡ db.tool_author_earnings)
unfolding claim_withdrawal release_withdrawal release_earnings claim_earnings
release_withdrawal-claim_withdrawal id db r unlinked claimed pos =
    let c = claim_withdrawal-Claimed id db r claimed in
    elim c.taken [
      | inl e ↦ let zero_total : r.0.1 ≡ 0 = rw e refl in absurd (omega (arith, zero_total, pos))
      | inr e ↦
          let ids = (select_earnings_to_settle c.row.org_id c.row.amount_usdc db).0 in
          let w = in_flight_row c.row in
          let d = claim_earnings id ids db in
          (
            put_withdrawal id (unfunded_row w) (release_earnings id (put_withdrawal id w d)),
            rw e (
                rw (lookup-upsert id id w d.tool_author_withdrawals, ==_refl id, release_withdrawal)
                  refl),
            release-claim id ids db.tool_author_earnings unlinked,
          )
    ]
