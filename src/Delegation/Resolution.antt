-- ===== src/Delegation/Resolution.antt =====
-- How a funded delegation is closed: the refund, the confirmation, the definitive failure, the
-- cancellation, and the pass over the outbox that retries and reconciles.
use teardrop.Common.{
  Bool, Keyed, List, Option, [], false, if◌then◌else◌, lookup, none, not, select, some, take, true,
  upsert, ℕ, ◌&&◌, ◌+◌, ◌==◌, ◌||◌, ◌∷◌,
}
use teardrop.Delegation.{
  coalesce, debit_principal, is_cancelled, is_confirmed, is_failed, is_not_attempted, is_open,
  is_pending, is_possibly_delivered, is_refunded, is_requested, outbox_row, put_outbox,
  return_credit,
}
use teardrop.Ledger.{is_reversed}
use teardrop.Schema.{
  Db, DelegationEvent, Outbox, Result, TaskStatus, cancelled, completed, confirmed, failed, ok,
  or_rollback, possibly_delivered_task, refund, refund_requested, refunded, ◌>>=◌,
}

abbrev pub refundable : Outbox → Bool
refundable o =
    is_requested o.status && (is_not_attempted o.delivery_status || is_failed o.delivery_status)

-- The first statement keeps a `resolved_at` that is set, the second, after the payment, does not.
abbrev pub refunded_row : Bool → ℕ → Outbox → Outbox
refunded_row paid_before now o = record o {
  status = refunded;
  resolved_at = if paid_before then coalesce o.resolved_at now else some now;
}

-- UPDATE … SET status = 'refunded' WHERE status = 'refund_requested' AND delivery_status IN (…)
unfoldable pub close_refund : Bool → ℕ → ℕ → ℕ → Db → Db
close_refund paid_before now org id db = elim (outbox_row org id db) [
  | none ↦ db
  | some o ↦ if refundable o then put_outbox id (refunded_row paid_before now o) db else db
]

unfoldable pub already_reversed : Outbox → Db → Bool
already_reversed o db = elim o.debit_ledger_id [
  | none ↦ false
  | some d ↦ is_reversed db.org_credit_ledger d
]

unfoldable pub complete_refund_locked : ℕ → ℕ → ℕ → ℕ → Outbox → Db → Result (Bool × Db)
unfolding close_refund already_reversed debit_principal
complete_refund_locked now entry org id o db =
    if already_reversed o db
    then ok (true, close_refund true now org id db)
    else (return_credit now entry org o.amount_usdc (refund id o.run_id) (debit_principal o db)
          o.debit_ledger_id db
        >>= λ r. ok (true, close_refund false now org id r.1))

abbrev pub confirmed_row : ℕ → Outbox → Outbox
confirmed_row now o = record o {
  delivery_status = confirmed;
  delivery_resolved_at = coalesce o.delivery_resolved_at now;
}

abbrev pub cancelled_row : ℕ → Outbox → Outbox
cancelled_row now o = record o { status = cancelled; resolved_at = coalesce o.resolved_at now }

unfoldable pub confirm_delegation_delivery : ℕ → ℕ → ℕ → Db → Bool × Db
confirm_delegation_delivery now org id db = elim (outbox_row org id db) [
  | none ↦ (false, db)
  | some o ↦
      if is_confirmed o.delivery_status
      then (not (is_refunded o.status), db)
      else if is_failed o.delivery_status || is_refunded o.status
      then (false, db)
      else (let o' = confirmed_row now o in
          if is_open o.status
          then (true, put_outbox id (cancelled_row now o') db)
          else (true, put_outbox id o' db))
]

abbrev pub failed_row : ℕ → Outbox → Outbox
failed_row now o = record o {
  delivery_status = failed;
  delivery_resolved_at = coalesce o.delivery_resolved_at now;
  status = if is_pending o.status then refund_requested else o.status;
}

unfoldable pub fail_locked : ℕ → ℕ → ℕ → ℕ → Outbox → Db → Result (Bool × Db)
fail_locked now entry org id o db =
    if is_confirmed o.delivery_status || is_cancelled o.status
    then ok (false, db)
    else if is_failed o.delivery_status && is_refunded o.status
    then ok (true, db)
    else if is_refunded o.status
    then ok (false, db)
    else if not (is_possibly_delivered o.delivery_status || is_failed o.delivery_status)
    then ok (false, db)
    else complete_refund_locked now entry org id o (put_outbox id (failed_row now o) db)

unfoldable pub fail_delegation_delivery : ℕ → ℕ → ℕ → ℕ → Db → Bool × Db
unfolding fail_locked
fail_delegation_delivery now entry org id db = or_rollback db false (elim (outbox_row org id db) [
  | none ↦ ok (false, db)
  | some o ↦ fail_locked now entry org id o db
])

unfoldable pub request_delegation_refund : ℕ → ℕ → Db → Bool × Db
request_delegation_refund org id db = elim (outbox_row org id db) [
  | none ↦ (false, db)
  | some o ↦
      if is_pending o.status && (is_not_attempted o.delivery_status || is_failed o.delivery_status)
      then (true, put_outbox id (record o { status = refund_requested }) db)
      else (is_requested o.status || is_refunded o.status, db)
]

-- The CASE of the statement: an unresolved delivery counts as confirmed.
abbrev pub cancel_row : ℕ → Outbox → Outbox
cancel_row now o = cancelled_row now (
    if is_not_attempted o.delivery_status || is_possibly_delivered o.delivery_status
    then confirmed_row now o
    else o)

unfoldable pub cancel_delegation_refund : ℕ → ℕ → ℕ → Db → Bool × Db
cancel_delegation_refund now org id db = elim (outbox_row org id db) [
  | none ↦ (false, db)
  | some o ↦
      if is_open o.status && not (is_failed o.delivery_status)
      then (true, put_outbox id (cancel_row now o) db)
      else (is_cancelled o.status, db)
]

unfoldable pub complete_delegation_refund : ℕ → ℕ → ℕ → ℕ → Db → Bool × Db
complete_delegation_refund now entry org id db = or_rollback db false (elim (outbox_row org id db) [
  | none ↦ ok (false, db)
  | some o ↦
      if refundable o
      then complete_refund_locked now entry org id o db
      else ok (is_refunded o.status, db)
])

-- refund_delegation of billing/__init__.py
unfoldable pub refund_delegation : ℕ → ℕ → ℕ → ℕ → ℕ → Db → Bool × Db
refund_delegation now entry org cost id db =
    if cost == 0
    then (true, db)
    else (let (requested, db') = request_delegation_refund org id db in
        if requested then complete_delegation_refund now entry org id db' else (false, db'))

-- The event of the row's delegation, written once.
unfoldable pub row_event : ℕ → Outbox → Db → Option DelegationEvent
row_event id o db = elim (lookup id db.a2a_delegation_events) [
  | none ↦ none
  | some e ↦ if e.org_id == o.org_id then some e else none
]

-- INSERT INTO a2a_delegation_events … ON CONFLICT (id) DO NOTHING
unfoldable pub record_delegation_event : ℕ → DelegationEvent → Db → Db
record_delegation_event id e db = elim (lookup id db.a2a_delegation_events) [
  | none ↦ record db { a2a_delegation_events = upsert id e db.a2a_delegation_events }
  | some _ ↦ db
]

abbrev pub is_ambiguous : TaskStatus → Bool
is_ambiguous possibly_delivered_task = true
is_ambiguous _ = false

abbrev pub is_completed : TaskStatus → Bool
is_completed completed = true
is_completed _ = false

abbrev pub Work : Type 0
Work = ℕ × Outbox × Option DelegationEvent

-- The WHERE of the pass.
unfoldable pub due : Work → Bool
due (id, o, event) =
    not (is_possibly_delivered o.delivery_status)
    && (is_requested o.status
        || (is_pending o.status
            && elim event [ none ↦ false | some e ↦ not (is_ambiguous e.task_status) ]))

unfoldable pub join_events : Keyed Outbox → Db → List Work
unfolding row_event
join_events [] db = []
join_events ((id, o) ∷ t) db = (id, o, row_event id o db) ∷ join_events t db

-- One row of the pass.
unfoldable pub reconcile : ℕ → ℕ → Work → Db → Bool × Db
reconcile now entry (id, o, none) db =
    if is_possibly_delivered o.delivery_status
    then (false, db)
    else (let (_, db') = request_delegation_refund o.org_id id db in
        complete_delegation_refund now entry o.org_id id db')
reconcile now entry (id, o, some e) db =
    if is_possibly_delivered o.delivery_status || is_ambiguous e.task_status
    then (false, db)
    else if is_completed e.task_status && not (e.cost_usdc == 0)
    then cancel_delegation_refund now o.org_id id db
    else (let (_, db') = request_delegation_refund o.org_id id db in
        complete_delegation_refund now entry o.org_id id db')

unfoldable pub reconcile_all : ℕ → ℕ → List Work → Db → ℕ × Db
reconcile_all now entry [] db = (0, db)
reconcile_all now entry (w ∷ rest) db =
    let (resolved, db') = reconcile now entry w db in
    let (more, db'') = reconcile_all now (entry + 1) rest db' in
    ((if resolved then 1 else 0) + more, db'')

-- The table is kept in the order of `created_at`; row i of the pass may write ledger id entry + i.
unfoldable pub process_delegation_refund_outbox : ℕ → ℕ → ℕ → Db → ℕ × Db
unfolding reconcile_all join_events due
process_delegation_refund_outbox now entry limit db =
    reconcile_all now entry
      (take limit (select due (join_events db.a2a_delegation_refund_outbox db))) db
