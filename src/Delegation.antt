-- ===== src/Delegation.antt =====
-- BillingDelegationService of billing/delegation.py with the funding transaction of
-- billing/credit.py: a delegation is paid in advance, its delivery is tracked, and what was not
-- delivered is refunded. Each method holds one transaction and catches every exception, so an
-- `err` inside is the fallback answer with the state as it was. `entry` is the uuid of the ledger
-- row that a call may write. The caches that are invalidated serve displays only.
pub mod Budget
pub mod Promise
pub mod Resolution
pub mod Lifecycle
pub mod Closing
pub mod Answers
pub mod Funding
pub mod Money
pub mod Refunds
pub mod Failure
pub mod Treasury
use teardrop.Common.{
  Bool, Option, false, find?, if◌then◌else◌, lookup, ltb, none, not, some, sum_where, true, upsert,
  ℕ, ◌&&◌, ◌+◌, ◌-◌, ◌==◌, ◌||◌,
}
use teardrop.Credit.{Debit, debit_credit_locked, debited, declined}
use teardrop.Ledger.{add_balance, insert_ledger}
use teardrop.Schema.{
  Db, DeliveryStatus, LedgerRow, Outbox, Reason, RefundStatus, Result, Settings, adjust, cancelled,
  confirmed, day_us, err, failed, not_attempted, ok, or_rollback, pending, possibly_delivered,
  refund_requested, refunded, since, topup, unique_violation, value_error, ◌>>=◌,
}

-- SELECT … FROM a2a_delegation_refund_outbox WHERE id = $1 AND org_id = $2
unfoldable pub outbox_row : ℕ → ℕ → Db → Option Outbox
outbox_row org id db = elim (lookup id db.a2a_delegation_refund_outbox) [
  | none ↦ none
  | some o ↦ if o.org_id == org then some o else none
]

-- UPDATE a2a_delegation_refund_outbox … WHERE id = $1, of a row that the caller has read
abbrev pub put_outbox : ℕ → Outbox → Db → Db
put_outbox id o db = record db {
  a2a_delegation_refund_outbox = upsert id o db.a2a_delegation_refund_outbox;
}

abbrev pub is_pending : RefundStatus → Bool
is_pending pending = true
is_pending _ = false

abbrev pub is_requested : RefundStatus → Bool
is_requested refund_requested = true
is_requested _ = false

abbrev pub is_refunded : RefundStatus → Bool
is_refunded refunded = true
is_refunded _ = false

abbrev pub is_cancelled : RefundStatus → Bool
is_cancelled cancelled = true
is_cancelled _ = false

abbrev pub is_open : RefundStatus → Bool
is_open s = is_pending s || is_requested s

abbrev pub is_not_attempted : DeliveryStatus → Bool
is_not_attempted not_attempted = true
is_not_attempted _ = false

abbrev pub is_possibly_delivered : DeliveryStatus → Bool
is_possibly_delivered possibly_delivered = true
is_possibly_delivered _ = false

abbrev pub is_confirmed : DeliveryStatus → Bool
is_confirmed confirmed = true
is_confirmed _ = false

abbrev pub is_failed : DeliveryStatus → Bool
is_failed failed = true
is_failed _ = false

-- COALESCE(column, value)
abbrev pub coalesce : Option ℕ → ℕ → Option ℕ
coalesce none v = some v
coalesce (some t) v = some t

-- debit_credit_with_delegation_refund

abbrev pub new_outbox : ℕ → ℕ → ℕ → ℕ → ℕ → Outbox
new_outbox now org run_id amount debit_id = record {
  org_id = org;
  run_id = run_id;
  amount_usdc = amount;
  debit_ledger_id = some debit_id;
  status = pending;
  delivery_status = not_attempted;
  delivery_started_at = none;
  delivery_resolved_at = none;
  resolved_at = none;
  created_at = now;
}

-- The outbox INSERT that follows the debit; an id that another org uses is a unique violation.
unfoldable pub fund_outbox : ℕ → ℕ → ℕ → ℕ → Debit × Db → Result ((Bool × ℕ) × Db)
fund_outbox now org run_id id (declined, db) = ok ((false, 0), db)
fund_outbox now org run_id id (debited amount entry, db) =
    elim (lookup id db.a2a_delegation_refund_outbox) [
      | some _ ↦ err unique_violation
      | none ↦ ok ((true, amount), put_outbox id (new_outbox now org run_id amount entry) db)
    ]

-- A call with an id that is funded already answers from the row, or raises on another amount.
unfoldable pub funded_again : ℕ → Outbox → Db → Result ((Bool × ℕ) × Db)
funded_again amount o db =
    if o.amount_usdc == amount
    then ok ((is_pending o.status, o.amount_usdc), db)
    else err value_error

unfoldable pub debit_credit_with_delegation_refund :
    Settings → ℕ → ℕ → ℕ → ℕ → Reason → ℕ → ℕ → Option ℕ → Db → (Bool × ℕ) × Db
unfolding fund_outbox funded_again
debit_credit_with_delegation_refund s now entry org amount reason id run_id principal db =
    if amount == 0
    then ((true, 0), db)
    else or_rollback db (false, 0)
        (elim (outbox_row org id db) [
          | some o ↦ funded_again amount o db
          | none ↦
              debit_credit_locked s now entry org amount reason principal db
              >>= fund_outbox now org run_id id
        ])

-- The principal of the debit that a row is linked to.
unfoldable pub debit_principal : Outbox → Db → Option ℕ
debit_principal o db = elim o.debit_ledger_id [
  | none ↦ none
  | some d ↦
      elim (find? (λ (r : LedgerRow). r.id == d && r.org_id == o.org_id) db.org_credit_ledger) [
        | none ↦ none
        | some r ↦ r.principal_id
      ]
]

abbrev pub return_row : ℕ → ℕ → ℕ → ℕ → ℕ → Reason → Option ℕ → Option ℕ → LedgerRow
return_row now entry org amount n reason principal reverses = record {
  id = entry;
  org_id = org;
  operation = topup;
  amount_usdc = amount;
  balance_usdc_after = n;
  reason = reason;
  principal_id = principal;
  external_ref = none;
  reverses_ledger_id = reverses;
  created_at = now;
}

-- The balance update and the ledger row by which money goes back to the org.
unfoldable pub return_credit : ℕ → ℕ → ℕ → ℕ → Reason → Option ℕ → Option ℕ → Db → Result (ℕ × Db)
return_credit now entry org amount reason principal reverses db = do
  (n, db') ← add_balance org amount db
  db'' ← insert_ledger (return_row now entry org amount n reason principal reverses) db'
  ok (n, db'')

-- mark_delegation_possibly_delivered

-- The treasury's outflow of the last 24 hours, over all orgs.
unfoldable pub signed_24h : ℕ → Db → ℕ
signed_24h now db =
    sum_where (λ e. elim e.1.delivery_started_at [ none ↦ false | some t ↦ since now day_us t ])
      (λ e. e.1.amount_usdc) db.a2a_delegation_refund_outbox

abbrev pub attempted : ℕ → ℕ → Outbox → Outbox
attempted now charge o = record o {
  delivery_status = possibly_delivered;
  delivery_started_at = coalesce o.delivery_started_at now;
  amount_usdc = charge;
}

-- The held amount shrinks to the charge, and the difference goes back; not a reversal.
unfoldable pub trim_hold : ℕ → ℕ → ℕ → ℕ → ℕ → Outbox → Db → Result (ℕ × Db)
unfolding debit_principal
trim_hold now entry org id charge o db =
    if ltb charge o.amount_usdc
    then return_credit now entry org (o.amount_usdc - charge) (adjust id o.run_id)
        (debit_principal o db) none db
    else ok (0, db)

unfoldable pub final_charge : Option ℕ → Outbox → Option ℕ
final_charge none o = some o.amount_usdc
final_charge (some c) o = if c == 0 || ltb o.amount_usdc c then none else some c

unfoldable pub mark_locked : Settings → ℕ → ℕ → ℕ → ℕ → Option ℕ → Outbox → Db → Result (Bool × Db)
unfolding trim_hold final_charge
mark_locked s now entry org id charge o db =
    if is_possibly_delivered o.delivery_status || is_confirmed o.delivery_status
    then ok (true, db)
    else if not (is_not_attempted o.delivery_status && is_open o.status)
    then ok (false, db)
    else elim (final_charge charge o) [
      | none ↦ ok (false, db)
      | some c ↦
          if ltb s.a2a_treasury_daily_outflow_cap_usdc (signed_24h now db + c)
          then ok (false, db)
          else (trim_hold now entry org id c o db >>= λ r.
              ok (true, put_outbox id (attempted now c o) r.1))
    ]

unfoldable pub mark_delegation_possibly_delivered :
    Settings → ℕ → ℕ → ℕ → ℕ → Option ℕ → Db → Bool × Db
unfolding mark_locked
mark_delegation_possibly_delivered s now entry org id charge db =
    or_rollback db false (elim (outbox_row org id db) [
      | none ↦ ok (false, db)
      | some o ↦ mark_locked s now entry org id charge o db
    ])
