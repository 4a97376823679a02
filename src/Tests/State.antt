-- ===== src/Tests/State.antt =====
-- A small database: org 1 is an ordinary org with a limit, org 2 was provisioned by a payment.
use teardrop.Common.{[], false, none, true, ℕ, ◌∷◌}
use teardrop.Schema.{Db, LedgerRow, Settings, given, other, topup, x402}

abbrev pub settings : Settings
settings = record {
  machine_org_daily_spend_limit_usdc = 5_000_000;
  a2a_delegation_billing_enabled = true;
  a2a_delegation_max_cost_usdc = 100_000;
  a2a_delegation_platform_fee_bps = 500;
  a2a_treasury_daily_outflow_cap_usdc = 5_000_000;
  byok_platform_fee_usdc = 1000;
  settlement_max_retries = 5;
  marketplace_default_revenue_share_bps = 7000;
  agent_wallet_enabled = true;
  marketplace_minimum_withdrawal_usdc = 1000;
  marketplace_withdrawal_cooldown_seconds = 3600;
}

abbrev pub opening : LedgerRow
opening = record {
  id = 1;
  org_id = 1;
  operation = topup;
  amount_usdc = 50_000;
  balance_usdc_after = 50_000;
  reason = given 0;
  principal_id = none;
  external_ref = none;
  reverses_ledger_id = none;
  created_at = 0;
}

abbrev pub db : Db
db = record {
  orgs =
      (1, record { acquisition_source = other }) ∷ (2, record { acquisition_source = x402 }) ∷ [];
  org_credits =
      (1, record { balance_usdc = 50_000; spending_limit_usdc = 30_000; is_paused = false }) ∷ [];
  org_credit_ledger = opening ∷ [];
  org_principal_spend_limits =
      record { org_id = 1; principal_id = 7; daily_limit_usdc = 20_000; is_paused = false } ∷ [];
  org_onboarding_credit_grants = [];
  org_onboarding_credit_outbox = [];
  a2a_delegation_refund_outbox = [];
  a2a_delegation_events = [];
  pending_settlements = [];
  tool_author_earnings = [];
  tool_author_config = (2, 66) ∷ [];
  tool_author_withdrawals = [];
  usage_events = [];
  billing_charges = [];
}

abbrev pub noon : ℕ
noon = 43_200_000_000
