-- ===== src/Settlement/Rearm.antt =====
-- rearm_exhausted_credit_settlements of billing/settlement.py: how much a top-up re-arms.
use teardrop.Common.{
  Bool, Keyed, count_where, false, if◌then◌else◌, leb, ltb, sum_where, true, update_where, ℕ, ◌&&◌,
  ◌*◌, ◌==◌, ◌||◌,
}
use teardrop.Schema.{
  BillingMethod, Db, PendingSettlement, credit_method, day_us, since, x402_method,
}
use teardrop.Settlement.{is_exhausted}
use teardrop.Settlement.Retry.{rearmed}

abbrev pub is_credit_method : BillingMethod → Bool
is_credit_method credit_method = true
is_credit_method x402_method = false

-- The WHERE of the candidates.
unfoldable pub is_candidate : ℕ → ℕ → ℕ × PendingSettlement → Bool
is_candidate org now (_, p) =
    p.org_id == org
    && is_exhausted p.status
    && is_credit_method p.billing_method
    && since now (7 * day_us) p.created_at

-- ORDER BY created_at, id: `e` is not after `f`.
abbrev pub not_after : ℕ × PendingSettlement → ℕ × PendingSettlement → Bool
not_after e f =
    ltb e.1.created_at f.1.created_at || (e.1.created_at == f.1.created_at && leb e.0 f.0)

-- SUM(amount_usdc) OVER (ORDER BY created_at, id), at the row `f`
unfoldable pub running_total : ℕ → ℕ → ℕ × PendingSettlement → Keyed PendingSettlement → ℕ
running_total org now f table =
    sum_where (λ e. is_candidate org now e && not_after e f) (λ e. e.1.amount_usdc) table

unfoldable pub is_rearmed : ℕ → ℕ → ℕ → Keyed PendingSettlement → ℕ × PendingSettlement → Bool
unfolding is_candidate running_total
is_rearmed org cap now table e = is_candidate org now e && leb (running_total org now e table) cap

-- The answer is the number of rows. The caller gives an org's id, which is not empty.
unfoldable pub rearm_exhausted_credit_settlements : ℕ → ℕ → ℕ → Db → ℕ × Db
unfolding is_rearmed
rearm_exhausted_credit_settlements org cap now db =
    let table = db.pending_settlements in
    if cap == 0 then (0, db) else (
      count_where (is_rearmed org cap now table) table,
      record db {
        pending_settlements =
            update_where (is_rearmed org cap now table) (λ (id, p). (id, rearmed now p)) table;
      },
    )
