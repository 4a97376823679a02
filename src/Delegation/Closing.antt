-- ===== src/Delegation/Closing.antt =====
-- Closing a delegation keeps every outbox row legal, on every branch and after every rollback.
use teardrop.Common.{
  ==_refl, Bool, Bool-cases, Option, Option-cases, arith, false, inl, inr, lookup-upsert, not, some,
  true, ℕ, ◌&&◌, ◌||◌, ◌∙◌, ◌≡◌,
}
use teardrop.Delegation.{
  debit_principal, is_cancelled, is_confirmed, is_failed, is_not_attempted, is_possibly_delivered,
  is_refunded, is_requested, mark_delegation_possibly_delivered, mark_locked, outbox_row,
  put_outbox, return_credit,
}
use teardrop.Delegation.Lifecycle.{
  AllLegal, AllLegalBut, AllLegalBut-upsert, AllLegalBut-write, KeepsLegal, Legal, ReturnsLegal,
  bind-ReturnsLegal, mark_locked-Legal, outbox_row-lookup, return_credit-outbox,
  rollback-KeepsLegal,
}
use teardrop.Delegation.Resolution.{
  already_reversed, close_refund, complete_delegation_refund, complete_refund_locked, due,
  fail_delegation_delivery, fail_locked, failed_row, refundable, refunded_row,
}
use teardrop.Schema.{
  Db, DeliveryStatus, Outbox, RefundStatus, Settings, cancelled, confirmed, failed, not_attempted,
  pending, possibly_delivered, refund, refund_requested, refunded,
}

pub outbox_row-write :
    (org id : ℕ) (o : Outbox) (db : Db)
    → o.org_id ≡ org
    → outbox_row org id (put_outbox id o db) ≡ some o
unfolding outbox_row
outbox_row-write org id o db owned =
    rw (lookup-upsert id id o db.a2a_delegation_refund_outbox, ==_refl id, outbox_row)
      (ground arith)

refundable-Legal :
    (r : RefundStatus) (d : DeliveryStatus)
    → (is_requested r && (is_not_attempted d || is_failed d)) ≡ true
    → Legal refunded d
refundable-Legal refund_requested not_attempted h = tt
refundable-Legal refund_requested failed h = tt
refundable-Legal refund_requested possibly_delivered h = cc
refundable-Legal refund_requested confirmed h = cc
refundable-Legal pending d h = cc
refundable-Legal refunded d h = cc
refundable-Legal cancelled d h = cc

-- The refund's last statement makes its row legal, if that row is the only doubtful one.
close_refund-Legal :
    (paid_before : Bool) (now org id : ℕ) (o : Outbox) (db : Db)
    → outbox_row org id db ≡ some o
    → refundable o ≡ true
    → AllLegalBut id db.a2a_delegation_refund_outbox
    → AllLegal (close_refund paid_before now org id db).a2a_delegation_refund_outbox
unfolding close_refund
close_refund-Legal paid_before now org id o db found due others =
    rw (found, due, close_refund)
      (AllLegalBut-upsert id (refunded_row paid_before now o) db.a2a_delegation_refund_outbox
        (refundable-Legal o.status o.delivery_status due) others)

pub outbox_row-same :
    (org id : ℕ) (db db' : Db)
    → db'.a2a_delegation_refund_outbox ≡ db.a2a_delegation_refund_outbox
    → outbox_row org id db' ≡ outbox_row org id db
unfolding outbox_row
outbox_row-same org id db db' same = rw same

-- `row` is what the caller has read; `o` is the row as the transaction has it now.
complete_refund_locked-Legal :
    (now entry org id : ℕ) (row o : Outbox) (db : Db)
    → outbox_row org id db ≡ some o
    → refundable o ≡ true
    → AllLegalBut id db.a2a_delegation_refund_outbox
    → ReturnsLegal (complete_refund_locked now entry org id row db)
unfolding complete_refund_locked
complete_refund_locked-Legal now entry org id row o db found due others =
    elim (Bool-cases (already_reversed row db)) [
      | inl paid ↦
          rw (paid, complete_refund_locked, ReturnsLegal)
            (close_refund-Legal true now org id o db found due others)
      | inr unpaid ↦
          rw (unpaid, complete_refund_locked)
            (bind-ReturnsLegal
              (return_credit now entry org row.amount_usdc (refund id row.run_id)
                (debit_principal row db) row.debit_ledger_id db)
              _
              (λ r q.
                let same =
                  return_credit-outbox now entry org row.amount_usdc (refund id row.run_id)
                    (debit_principal row db) row.debit_ledger_id db q in
                close_refund-Legal false now org id o r.1
                  (outbox_row-same org id db r.1 same ∙ found) due (rw same others)))
    ]

-- The first write of a failure: its row, and no other, is doubtful until the refund closes.
fail_locked-Legal :
    (now entry org id : ℕ) (o : Outbox) (db : Db)
    → outbox_row org id db ≡ some o
    → AllLegal db.a2a_delegation_refund_outbox
    → ReturnsLegal (fail_locked now entry org id o db)
unfolding fail_locked
fail_locked-Legal now entry org id o db found all =
    elim (Bool-cases (is_confirmed o.delivery_status || is_cancelled o.status)) [
      | inl e ↦ rw (e, fail_locked, ReturnsLegal) all
      | inr e ↦ elim (Bool-cases (is_failed o.delivery_status && is_refunded o.status)) [
        | inl f ↦ rw (e, f, fail_locked, ReturnsLegal) all
        | inr f ↦ elim (Bool-cases (is_refunded o.status)) [
          | inl g ↦ rw (e, f, g, fail_locked, ReturnsLegal) all
          | inr g ↦
              elim (Bool-cases
                (not (is_possibly_delivered o.delivery_status || is_failed o.delivery_status))) [
                  | inl h ↦ rw (e, f, g, h, fail_locked, ReturnsLegal) all
                  | inr h ↦
                      rw (e, f, g, h, fail_locked)
                        (complete_refund_locked-Legal now entry org id o (failed_row now o)
                          (put_outbox id (failed_row now o) db)
                          (outbox_row-write org id (failed_row now o) db
                            (outbox_row-lookup org id db found).1)
                          (ground arith)
                          (AllLegalBut-write id (failed_row now o) db.a2a_delegation_refund_outbox
                            all))
                ]
        ]
      ]
    ]

-- Recording a definitive failure keeps every outbox row legal.
pub fail_delegation_delivery-Legal :
    (now entry org id : ℕ) (db : Db)
    → AllLegal db.a2a_delegation_refund_outbox
    → KeepsLegal (fail_delegation_delivery now entry org id db)
unfolding fail_delegation_delivery
fail_delegation_delivery-Legal now entry org id db all =
    elim (Option-cases (outbox_row org id db)) [
      | inl missing ↦ rw (missing, fail_delegation_delivery, KeepsLegal) all
      | inr (o, found) ↦
          rw (found, fail_delegation_delivery)
            (rollback-KeepsLegal db false (fail_locked now entry org id o db) all
              (fail_locked-Legal now entry org id o db found all))
    ]

pub complete_delegation_refund-Legal :
    (now entry org id : ℕ) (db : Db)
    → AllLegal db.a2a_delegation_refund_outbox
    → KeepsLegal (complete_delegation_refund now entry org id db)
unfolding complete_delegation_refund
complete_delegation_refund-Legal now entry org id db all =
    elim (Option-cases (outbox_row org id db)) [
      | inl missing ↦ rw (missing, complete_delegation_refund, KeepsLegal) all
      | inr (o, found) ↦ elim (Bool-cases (refundable o)) [
        | inl due ↦
            rw (found, due, complete_delegation_refund)
              (rollback-KeepsLegal db false (complete_refund_locked now entry org id o db) all (
                complete_refund_locked-Legal now entry org id o o db found due
                  (λ k r _ h. all k r h)))
        | inr not_due ↦ rw (found, not_due, complete_delegation_refund, KeepsLegal) all
      ]
    ]

pub mark_delegation_possibly_delivered-Legal :
    (s : Settings) (now entry org id : ℕ) (charge : Option ℕ) (db : Db)
    → AllLegal db.a2a_delegation_refund_outbox
    → KeepsLegal (mark_delegation_possibly_delivered s now entry org id charge db)
unfolding mark_delegation_possibly_delivered
mark_delegation_possibly_delivered-Legal s now entry org id charge db all =
    elim (Option-cases (outbox_row org id db)) [
      | inl missing ↦ rw (missing, mark_delegation_possibly_delivered, KeepsLegal) all
      | inr (o, found) ↦
          rw (found, mark_delegation_possibly_delivered)
            (rollback-KeepsLegal db false (mark_locked s now entry org id charge o db) all
              (mark_locked-Legal s now entry org id charge o db all))
    ]
