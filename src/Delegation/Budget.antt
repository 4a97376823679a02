-- ===== src/Delegation/Budget.antt =====
-- BillingDelegationService of billing/delegation.py before any money moves: the budget check, the
-- fees, and the funding call; and what the check promises of the funding.
use teardrop.Common.{
  Bool, Option, arith, false, if◌then◌else◌, lookup, ltb, none, not, some, ℕ, ◌&&◌, ◌*◌, ◌+◌, ◌/◌,
  ◌≡◌, ◌≤◌,
}
use teardrop.Credit.{principal_limit}
use teardrop.Delegation.{debit_credit_with_delegation_refund}
use teardrop.Ledger.{get_daily_debit_spend, get_daily_principal_debit_spend}
use teardrop.Pricing.{PricingRule, ceil_div}
use teardrop.Schema.{Db, OrgCredit, Settings, delegation}

-- The answers of the check, in the words of the error texts; `affordable` is None.
pub data Budget : Type 0 where
  affordable over_global_cap budget_paused budget_insufficient budget_daily_limit : Budget
  budget_principal_paused budget_principal_limit : Budget

-- A missing row reads as balance 0, no limit, not paused.
abbrev credit_or_empty : ℕ → Db → OrgCredit
credit_or_empty org db = elim (lookup org db.org_credits) [
  | none ↦ record { balance_usdc = 0; spending_limit_usdc = 0; is_paused = false }
  | some c ↦ c
]

principal_budget : ℕ → ℕ → ℕ → Option ℕ → Db → Budget
principal_budget now org cost none db = affordable
principal_budget now org cost (some p) db = elim (principal_limit org p db) [
  | none ↦ affordable
  | some l ↦
      if l.is_paused
      then budget_principal_paused
      else if ltb l.daily_limit_usdc (get_daily_principal_debit_spend now org p db + cost)
      then budget_principal_limit
      else affordable
]

-- The service as the application builds it: `get_daily_principal_debit_spend` is given.
unfoldable pub check_delegation_budget : Settings → ℕ → ℕ → ℕ → Option ℕ → Db → Budget
unfolding principal_budget
check_delegation_budget s now org cost principal db =
    let c = credit_or_empty org db in
    if not s.a2a_delegation_billing_enabled
    then affordable
    else if ltb s.a2a_delegation_max_cost_usdc cost
    then over_global_cap
    else if c.is_paused
    then budget_paused
    else if ltb c.balance_usdc cost
    then budget_insufficient
    else if ltb 0 c.spending_limit_usdc
        && ltb c.spending_limit_usdc (get_daily_debit_spend now org db + cost)
    then budget_daily_limit
    else principal_budget now org cost principal db

unfoldable pub apply_platform_fee : Settings → ℕ → ℕ
apply_platform_fee s cost = cost + cost * s.a2a_delegation_platform_fee_bps / 10_000

unfoldable pub get_byok_platform_fee : Settings → Bool → ℕ
get_byok_platform_fee s is_byok = if is_byok then s.byok_platform_fee_usdc else 0

-- `rule` is get_live_pricing_for_model with is_byok.
unfoldable pub calculate_byok_orchestration_cost : Settings → ℕ → ℕ → Option PricingRule → ℕ
calculate_byok_orchestration_cost s tokens_in tokens_out none = s.byok_platform_fee_usdc
calculate_byok_orchestration_cost s tokens_in tokens_out (some r) =
    let computed =
      ceil_div (tokens_in * r.tokens_in_cost_per_1k + tokens_out * r.tokens_out_cost_per_1k) 1000 in
    if ltb computed s.byok_platform_fee_usdc then s.byok_platform_fee_usdc else computed

-- The reason names the agent's URL, `agent`.
unfoldable pub fund_delegation : Settings → ℕ → ℕ → ℕ → ℕ → ℕ → ℕ → ℕ → Option ℕ → Db → Bool × Db
fund_delegation s now entry org cost run_id agent id principal db =
    let ((success, _), db') =
      debit_credit_with_delegation_refund s now entry org cost (delegation run_id agent) id run_id
        principal db in
    (success, db')

-- Two costs with the fee charged apart come to no more than together, and to at most one unit less.
pub apply_platform_fee-add :
    (s : Settings) (a b : ℕ)
    → (apply_platform_fee s a + apply_platform_fee s b ≤ apply_platform_fee s (a + b))
      × (apply_platform_fee s (a + b) ≤ apply_platform_fee s a + apply_platform_fee s b + 1)
unfolding apply_platform_fee
apply_platform_fee-add s a b =
    let distr : (a + b) * s.a2a_delegation_platform_fee_bps
        ≡ a * s.a2a_delegation_platform_fee_bps + b * s.a2a_delegation_platform_fee_bps =
      grind arith in
    (omega arith, omega arith)
