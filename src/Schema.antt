-- ===== src/Schema.antt =====
-- The tables of migrations/versions that billing and the marketplace write, as one record of rows.
-- Ids (UUIDs, org slugs, references) are only compared, so they are numbers; times are microseconds.
-- A BIGINT column with `CHECK (… >= 0)` is a ℕ; its upper bound is `max_bigint`.
mod Rows
mod Tx
pub use Rows.*
pub use Tx.*
use teardrop.Common.{Bool, Keyed, List, leb, ℕ, ◌+◌}

-- The settings of teardrop/config.py that these components read.
pub record Settings : Type 0 where
  pub machine_org_daily_spend_limit_usdc : ℕ
  pub a2a_delegation_billing_enabled : Bool
  pub a2a_delegation_max_cost_usdc : ℕ
  pub a2a_delegation_platform_fee_bps : ℕ
  pub a2a_treasury_daily_outflow_cap_usdc : ℕ
  pub byok_platform_fee_usdc : ℕ
  pub settlement_max_retries : ℕ
  pub marketplace_default_revenue_share_bps : ℕ
  pub agent_wallet_enabled : Bool
  pub marketplace_minimum_withdrawal_usdc : ℕ
  pub marketplace_withdrawal_cooldown_seconds : ℕ

pub record Db : Type 0 where
  pub orgs : Keyed Org
  pub org_credits : Keyed OrgCredit
  pub org_credit_ledger : List LedgerRow
  pub org_principal_spend_limits : List PrincipalLimit
  pub org_onboarding_credit_grants : Keyed Grant
  pub org_onboarding_credit_outbox : Keyed GrantOutbox
  pub a2a_delegation_refund_outbox : Keyed Outbox
  pub a2a_delegation_events : Keyed DelegationEvent
  pub pending_settlements : Keyed PendingSettlement
  pub tool_author_earnings : List Earning
  pub tool_author_config : Keyed ℕ
  pub tool_author_withdrawals : Keyed Withdrawal
  pub usage_events : Keyed UsageEvent
  pub billing_charges : Keyed BillingCharge

abbrev pub second_us : ℕ
second_us = 1_000_000

abbrev pub minute_us : ℕ
minute_us = 60_000_000

abbrev pub day_us : ℕ
day_us = 86_400_000_000

-- `t >= NOW() - INTERVAL window`
abbrev pub since : ℕ → ℕ → ℕ → Bool
since now window t = leb now (t + window)
