-- ===== src/Lib.antt =====
-- Teardrop: its billing (what an org owes, what it is charged, and what it gets back), its unattended
-- runs, its sign-in, the limits of its processes, the plans of its agents and the commitments to its
-- predictions.
--
-- The program is an API platform for agents. Each run is priced (billing/pricing.py) and charged to
-- the org's prepaid credit (billing/credit.py), work that is delegated to another agent is paid in
-- advance and refunded if it is not delivered (billing/delegation.py), and a charge that failed is
-- retried later, when the authors of the tools are paid too (billing/settlement.py). The billing is
-- a set of transactions on shared tables, and the tables are the interface between its parts. The
-- unattended runs, the sign-in and the anchoring of commitments have tables of their own; the limits, the plans and the
-- Merkle trees stand alone.
--
-- Common: Boolean tests, and tables with SELECT, UPDATE … WHERE and SUM.
-- Schema: the tables of migrations/versions/102_squashed_baseline.sql as one record `Db` of rows,
--   the settings of teardrop/config.py that are read, and transactions. A transaction is a function
--   of the state to `Result`; an `err` is an exception inside it, and `or_rollback` is the `except`
--   that answers a fallback with the state as it was.
-- Ledger: balances, ledger rows and the rolling 24-hour spend, that the services share
--   (billing/credit.py, billing/context.py).
-- Credit: verify_credit, _debit_credit_locked and debit_credit of billing/credit.py.
-- Topup: admin_topup_credit, the onboarding grant and its outbox, and (Bootstrap)
--   record_onboarding_settlement, of billing/credit.py.
-- Delegation: BillingDelegationService of billing/delegation.py, with
--   debit_credit_with_delegation_refund of billing/credit.py and refund_delegation of
--   billing/__init__.py.
-- Pricing: billing/pricing.py.
-- Settlement: the retry queue of billing/settlement.py, with mark_charge_settled of
--   billing/charges.py. A retry debits through Credit and pays authors through Earnings.
-- Charges: the other writes of billing/charges.py, with the trigger of
--   migrations/versions/115_billing_charges.sql.
-- Earnings: marketplace/earnings.py.
-- Withdrawals: marketplace/withdrawals.py, without the mails and the listing queries.
-- Labeling.Merkle: merkle_root, audit_path and verify_path of labeling/commitments.py, over a node
--   hash that is a parameter.
-- Labeling.Anchor: the life of a batch of labeling/anchor.py, on the table of
--   migrations/versions/110_vor_commitments.sql, with what the RPC endpoint answers as an argument.
-- Limits: the process-local limits. Slots: teardrop/concurrency.py, with the limiters and leases as
--   objects that have an address, and a step for each operation. Window and Lockout:
--   teardrop/rate_limit.py, with the answer of Redis as an argument. TtlCache: the class of
--   teardrop/cache.py, over its loader and its clock.
-- Auth.Siwe: _verify_siwe of teardrop/siwe.py with the nonces of teardrop/wallets.py, with what the siwe
--   library and Redis answer as arguments.
-- Scheduling: runs on an interval and runs on events, on the tables that scheduling/crud.py writes.
--   Schedules, Marks, Claim and Dispatch: scheduling/crud.py, with the deletion of old idempotency
--   keys of teardrop/retention.py (Dispatch.Retention). Broadcast and Runner:
--   scheduling/runner.py and scheduling/worker.py, where a run asks Credit first. Events: the webhook,
--   the background run and the chain of teardrop/routers/agent_event_triggers.py. Handlers: the
--   handlers of that file and of teardrop/routers/agent_schedules.py that change schedules.
-- Agent.Plan: validate_plan_dag of agent/planner_ir.py. Agent.Shortlist: agent/shortlist.py.
--
-- A function of the model has the name of the Python function. It takes the settings, the time and
-- the uuid of the row that it may write as arguments, and the state as its last one, and returns
-- the answer with the state. Times are microseconds. Ids and texts that are only compared are
-- numbers. Amounts are ℕ, as the columns have `CHECK (… >= 0)`; the upper bound of BIGINT is a
-- failure of the statement (`max_bigint`). Row locks and advisory locks make the transactions on
-- one row serial, so a run is a sequence of transactions. A loop is over a list, but for these: the
-- recursions over a Merkle tree have the number of leaves as fuel, since each call has a shorter
-- list; `bit_length` and `strip` have their number, which each round halves; and the search of a plan
-- has one more level than there are calls, since the calls on its stack are distinct.
--
-- Not modelled: the other HTTP routers and the tokens of a session, the payment protocols and the chain, which
-- are third-party code, the LLM calls and the agent graph beyond its plans and shortlists, the
-- built-in tools, logging, and caches that only serve displays.
pub mod Common
pub mod Schema
pub mod Ledger
pub mod Credit
pub mod Topup
pub mod Delegation
pub mod Pricing
pub mod Earnings
pub mod Withdrawals
pub mod Settlement
pub mod Charges
pub mod Labeling
pub mod Limits
pub mod Agent
pub mod Scheduling
pub mod Auth
mod Tests
