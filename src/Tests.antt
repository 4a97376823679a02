-- ===== src/Tests.antt =====
-- The tests: the operations on a small database, and the theorems at concrete states.
mod State
mod Credit
mod Topup
mod Delegation
mod Pricing
mod Settlement
mod Withdrawals
mod Labeling
mod Limits
mod Agent
mod Anchor
mod Auth
mod Bootstrap
mod Scheduling
mod Events
mod Charges
