-- ===== src/Earnings.antt =====
-- What a tool's author earns: marketplace/earnings.py. `new_id` is the row's uuid4.
pub mod Split
use teardrop.Common.{
  Bool, exists, false, if◌then◌else◌, lookup, ltb, none, some, sum_where, true, ℕ, ◌&&◌, ◌*◌, ◌-◌,
  ◌/◌, ◌==◌, ◌||◌, ◌∷◌,
}
use teardrop.Ledger.{max_bigint}
use teardrop.Schema.{
  Db, Earning, EarningStatus, Result, Settings, check_violation, earning_pending, earning_settled,
  err, foreign_key_violation, ok, or_rollback, out_of_range, unique_violation, ◌>>=◌,
}

abbrev pub earning_row : ℕ → ℕ → ℕ → ℕ → ℕ → ℕ → ℕ → Earning
earning_row now id author tool caller total share = record {
  id = id;
  org_id = author;
  tool_name = tool;
  caller_org_id = caller;
  amount_usdc = total;
  author_share_usdc = share;
  platform_share_usdc = total - share;
  status = earning_pending;
  withdrawal_id = none;
  created_at = now;
}

-- (total * bps) // 10_000
unfoldable pub author_share : Settings → ℕ → ℕ
author_share s total = total * s.marketplace_default_revenue_share_bps / 10_000

-- The constraints of tool_author_earnings. The platform's share is negative where the author's is
-- more than the total.
unfoldable pub insert_earning : ℕ → ℕ → ℕ → ℕ → ℕ → ℕ → ℕ → Db → Result Db
insert_earning now id author tool caller total share db =
    if ltb max_bigint total || ltb max_bigint share
    then err out_of_range
    else if ltb total share
    then err check_violation
    else if exists (λ (e : Earning). e.id == id) db.tool_author_earnings
    then err unique_violation
    else elim (lookup author db.orgs) [
      | none ↦ err foreign_key_violation
      | some _ ↦ ok (record db {
        tool_author_earnings =
            earning_row now id author tool caller total share ∷ db.tool_author_earnings;
      })
    ]

unfoldable pub insert_tool_call_earnings :
    Settings → ℕ → ℕ → ℕ → ℕ → ℕ → ℕ → Db → Result (Bool × Db)
unfolding insert_earning author_share
insert_tool_call_earnings s now new_id author tool caller total db =
    if author == caller || total == 0
    then ok (false, db)
    else (insert_earning now new_id author tool caller total (author_share s total) db >>= λ d.
        ok (true, d))

-- The `except` drops the error.
unfoldable pub record_tool_call_earnings : Settings → ℕ → ℕ → ℕ → ℕ → ℕ → ℕ → Db → Db
record_tool_call_earnings s now new_id author tool caller total db =
    if author == caller
    then db
    else (or_rollback db false
        (insert_tool_call_earnings s now new_id author tool caller total db)).1

abbrev pub is_pending_earning : EarningStatus → Bool
is_pending_earning earning_pending = true
is_pending_earning earning_settled = false

unfoldable pub get_author_balance : ℕ → Db → ℕ
get_author_balance org db =
    sum_where (λ (e : Earning). e.org_id == org && is_pending_earning e.status)
      (λ (e : Earning). e.author_share_usdc) db.tool_author_earnings
