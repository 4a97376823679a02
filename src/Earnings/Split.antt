-- ===== src/Earnings/Split.antt =====
-- How a call's price is divided, and what reaches the author's balance.
use teardrop.Common.{
  All, arith, exists, false, if◌then◌else◌, lookup, some, ℕ, ◌*◌, ◌+◌, ◌<◌, ◌==◌, ◌∷◌, ◌≡◌, ◌≤◌,
}
use teardrop.Earnings.{
  author_share, earning_row, get_author_balance, insert_earning, insert_tool_call_earnings,
  record_tool_call_earnings,
}
use teardrop.Ledger.{max_bigint}
use teardrop.Schema.{Db, Earning, Org, Settings, ok}

abbrev pub IsSplit : Earning → Type 0
IsSplit e = e.author_share_usdc + e.platform_share_usdc ≡ e.amount_usdc

pub author_share-le :
    (s : Settings) (total : ℕ)
    → s.marketplace_default_revenue_share_bps ≤ 10_000
    → author_share s total ≤ total
unfolding author_share
author_share-le s total bounded =
    let scaled : total * s.marketplace_default_revenue_share_bps ≤ total * 10_000 = grind arith in
    omega arith

pub insert_earning-pays :
    (now id author tool caller total share : ℕ) (db : Db) (o : Org)
    → total ≤ max_bigint
    → share ≤ total
    → exists (λ (e : Earning). e.id == id) db.tool_author_earnings ≡ false
    → lookup author db.orgs ≡ some o
    → insert_earning now id author tool caller total share db
      ≡ ok (record db {
        tool_author_earnings =
            earning_row now id author tool caller total share ∷ db.tool_author_earnings;
      })
unfolding insert_earning
insert_earning-pays now id author tool caller total share db o fits le fresh known = ground arith

-- A call of another org's tool at a positive cost that fits the column is recorded, if the share is
-- at most 100 %, the row's id is unused and the author's org exists: the author's balance, and no
-- other, grows by the share, and the new row's shares add up to the cost, as those of the others.
pub record_tool_call_earnings-pays :
    (s : Settings) (now new_id author tool caller total : ℕ) (db : Db) (o : Org)
    → (author == caller) ≡ false
    → 0 < total
    → total ≤ max_bigint
    → s.marketplace_default_revenue_share_bps ≤ 10_000
    → exists (λ (e : Earning). e.id == new_id) db.tool_author_earnings ≡ false
    → lookup author db.orgs ≡ some o
    → let db' = record_tool_call_earnings s now new_id author tool caller total db in
      ((k : ℕ)
        → get_author_balance k db'
          ≡ get_author_balance k db + (if author == k then author_share s total else 0))
      × (All IsSplit db.tool_author_earnings → All IsSplit db'.tool_author_earnings)
unfolding record_tool_call_earnings insert_tool_call_earnings get_author_balance
record_tool_call_earnings-pays s now new_id author tool caller total db o not_own pos fits bounded
      fresh known =
    let nonzero : (total == 0) ≡ false = ground arith in
    let le = author_share-le s total bounded in
    let paid =
      insert_earning-pays now new_id author tool caller total (author_share s total) db o fits le
        fresh known in
    rw (not_own, nonzero, paid, record_tool_call_earnings, insert_tool_call_earnings)
      (λ k. ground arith, λ all. (omega arith, all))
