-- ===== src/Schema/Rows.antt =====
-- The rows of each table, with the columns that the program reads or writes.
use teardrop.Common.{Bool, List, Option, ℕ}

-- `orgs.acquisition_source`: `other` is every value but 'siwe' and 'x402', and NULL.
pub data AcquisitionSource : Type 0 where
  siwe x402 other : AcquisitionSource

pub record Org : Type 0 where
  pub acquisition_source : AcquisitionSource

pub record OrgCredit : Type 0 where
  pub balance_usdc : ℕ
  pub spending_limit_usdc : ℕ
  pub is_paused : Bool

pub data Operation : Type 0 where
  debit topup : Operation

-- The text of `org_credit_ledger.reason`, by the place that writes it.
pub data Reason : Type 0 where
  given : ℕ → Reason
  run : ℕ → Reason
  x402_onboarding onboarding_grant : Reason
  delegation : ℕ → ℕ → Reason
  adjust refund : ℕ → ℕ → Reason

pub record LedgerRow : Type 0 where
  pub id : ℕ
  pub org_id : ℕ
  pub operation : Operation
  pub amount_usdc : ℕ
  pub balance_usdc_after : ℕ
  pub reason : Reason
  pub principal_id : Option ℕ
  pub external_ref : Option ℕ
  pub reverses_ledger_id : Option ℕ
  pub created_at : ℕ

pub record PrincipalLimit : Type 0 where
  pub org_id : ℕ
  pub principal_id : ℕ
  pub daily_limit_usdc : ℕ
  pub is_paused : Bool

pub record Grant : Type 0 where
  pub amount_usdc : ℕ
  pub ledger_entry_id : ℕ

-- A queued grant; the table is kept in the order of `created_at`.
pub record GrantOutbox : Type 0 where
  pub amount_usdc : ℕ
  pub attempts : ℕ

pub data RefundStatus : Type 0 where
  pending refund_requested refunded cancelled : RefundStatus

pub data DeliveryStatus : Type 0 where
  not_attempted possibly_delivered confirmed failed : DeliveryStatus

-- A funded delegation, keyed by its id; the text columns are left out.
pub record Outbox : Type 0 where
  pub org_id : ℕ
  pub run_id : ℕ
  pub amount_usdc : ℕ
  pub debit_ledger_id : Option ℕ
  pub status : RefundStatus
  pub delivery_status : DeliveryStatus
  pub delivery_started_at : Option ℕ
  pub delivery_resolved_at : Option ℕ
  pub resolved_at : Option ℕ
  pub created_at : ℕ

pub data TaskStatus : Type 0 where
  completed possibly_delivered_task other_task : TaskStatus

pub record DelegationEvent : Type 0 where
  pub org_id : ℕ
  pub task_status : TaskStatus
  pub cost_usdc : ℕ

-- `waiting` is 'pending'.
pub data SettlementStatus : Type 0 where
  waiting retrying settled exhausted : SettlementStatus

pub data BillingMethod : Type 0 where
  credit_method x402_method : BillingMethod

-- One entry of `earnings_allocations`: the author, the tool, the caller and the cost, where a
-- negative cost counts as 0. `malformed` is an item that lacks a key or a number.
pub data Allocation : Type 0 where
  allocation : ℕ → ℕ → ℕ → ℕ → Allocation
  malformed : Allocation

pub record PendingSettlement : Type 0 where
  pub org_id : ℕ
  pub run_id : ℕ
  pub billing_method : BillingMethod
  pub amount_usdc : ℕ
  pub principal_id : Option ℕ
  pub retry_count : ℕ
  pub max_retries : ℕ
  pub next_retry_at : ℕ
  pub status : SettlementStatus
  pub usage_event_id : ℕ
  pub charge_id : Option ℕ
  pub earnings_allocations : List Allocation
  pub created_at : ℕ

-- `withdrawal_pending` is 'pending', `withdrawal_settled` is 'settled', and so on.
pub data WithdrawalStatus : Type 0 where
  withdrawal_pending in_flight : WithdrawalStatus
  withdrawal_settled withdrawal_failed withdrawal_exhausted : WithdrawalStatus

-- `tool_author_withdrawals`; `tx_hash` is none where the text is empty.
pub record Withdrawal : Type 0 where
  pub org_id : ℕ
  pub amount_usdc : ℕ
  pub wallet : ℕ
  pub tx_hash : Option ℕ
  pub status : WithdrawalStatus
  pub created_at : ℕ
  pub settled_at : Option ℕ
  pub sweep_attempt_count : ℕ

-- `usage_events`, its settlement columns.
pub record UsageEvent : Type 0 where
  pub cost_usdc : ℕ
  pub is_settled : Bool

pub data ChargeStatus : Type 0 where
  charge_settled charge_failed charge_reverted : ChargeStatus

pub data ChargeSource : Type 0 where
  from_api from_schedule from_trigger from_a2a from_mcp from_mcp_v1 : ChargeSource

pub data ChargeMethod : Type 0 where
  by_credit by_x402 by_mpp : ChargeMethod

-- `billing_charges`; an empty usage event or transaction is none.
pub record BillingCharge : Type 0 where
  pub source : ChargeSource
  pub invocation_id : ℕ
  pub usage_event_id : Option ℕ
  pub org_id : ℕ
  pub charge_method : ChargeMethod
  pub settlement_tx : Option ℕ
  pub amount_usdc : ℕ
  pub settled_amount_usdc : ℕ
  pub status : ChargeStatus

pub data EarningStatus : Type 0 where
  earning_pending earning_settled : EarningStatus

pub record Earning : Type 0 where
  pub id : ℕ
  pub org_id : ℕ
  pub tool_name : ℕ
  pub caller_org_id : ℕ
  pub amount_usdc : ℕ
  pub author_share_usdc : ℕ
  pub platform_share_usdc : ℕ
  pub status : EarningStatus
  pub withdrawal_id : Option ℕ
  pub created_at : ℕ
