-- ===== src/Delegation/Answers.antt =====
-- The calls on the outbox that are single statements, and the funding: every row stays legal.
use teardrop.Common.{
  Bool-cases, Option-cases, arith, false, inl, inr, not, refl, true, ℕ, ◌&&◌, ◌||◌, ◌≡◌,
}
use teardrop.Delegation.{
  is_confirmed, is_failed, is_not_attempted, is_open, is_pending, is_refunded, outbox_row,
}
use teardrop.Delegation.Lifecycle.{AllLegal, AllLegal-upsert, KeepsLegal, Legal, row-Legal}
use teardrop.Delegation.Resolution.{
  cancel_delegation_refund, cancel_row, cancelled_row, confirm_delegation_delivery, confirmed_row,
  request_delegation_refund,
}
use teardrop.Schema.{
  Db, DeliveryStatus, Outbox, RefundStatus, cancelled, confirmed, failed, not_attempted, pending,
  possibly_delivered, refund_requested, refunded,
}

confirm-Legal : (r : RefundStatus) → (is_open r || is_refunded r) ≡ false → Legal r confirmed
confirm-Legal pending h = cc
confirm-Legal refund_requested h = cc
confirm-Legal refunded h = cc
confirm-Legal cancelled h = tt

pub confirm_delegation_delivery-Legal :
    (now org id : ℕ) (db : Db)
    → AllLegal db.a2a_delegation_refund_outbox
    → KeepsLegal (confirm_delegation_delivery now org id db)
unfolding confirm_delegation_delivery
confirm_delegation_delivery-Legal now org id db all = elim (Option-cases (outbox_row org id db)) [
  | inl missing ↦ rw (missing, confirm_delegation_delivery, KeepsLegal) all
  | inr (o, found) ↦ elim (Bool-cases (is_confirmed o.delivery_status)) [
    | inl e ↦ rw (found, e, confirm_delegation_delivery, KeepsLegal) all
    | inr e ↦ elim (Bool-cases (is_failed o.delivery_status || is_refunded o.status)) [
      | inl f ↦ rw (found, e, f, confirm_delegation_delivery, KeepsLegal) all
      | inr f ↦ elim (Bool-cases (is_open o.status)) [
        | inl g ↦
            rw (found, e, f, g, confirm_delegation_delivery, KeepsLegal)
              (AllLegal-upsert id (cancelled_row now (confirmed_row now o))
                db.a2a_delegation_refund_outbox tt all)
        | inr g ↦
            rw (found, e, f, g, confirm_delegation_delivery, KeepsLegal)
              (AllLegal-upsert id (confirmed_row now o) db.a2a_delegation_refund_outbox
                (confirm-Legal o.status (ground arith)) all)
      ]
    ]
  ]
]

request-Legal :
    (r : RefundStatus) (d : DeliveryStatus)
    → Legal r d
    → is_pending r ≡ true
    → Legal refund_requested d
request-Legal pending not_attempted l h = tt
request-Legal pending possibly_delivered l h = tt
request-Legal pending confirmed l h = absurd l
request-Legal pending failed l h = absurd l
request-Legal refund_requested d l h = cc
request-Legal refunded d l h = cc
request-Legal cancelled d l h = cc

pub request_delegation_refund-Legal :
    (org id : ℕ) (db : Db)
    → AllLegal db.a2a_delegation_refund_outbox
    → KeepsLegal (request_delegation_refund org id db)
unfolding request_delegation_refund
request_delegation_refund-Legal org id db all = elim (Option-cases (outbox_row org id db)) [
  | inl missing ↦ rw (missing, request_delegation_refund, KeepsLegal) all
  | inr (o, found) ↦
      elim (Bool-cases (
        is_pending o.status
        && (is_not_attempted o.delivery_status || is_failed o.delivery_status))) [
          | inl e ↦
              rw (found, e, request_delegation_refund, KeepsLegal)
                (AllLegal-upsert id (record o { status = refund_requested })
                  db.a2a_delegation_refund_outbox
                  (request-Legal o.status o.delivery_status (row-Legal org id db all found)
                    (ground arith))
                  all)
          | inr e ↦ rw (found, e, request_delegation_refund, KeepsLegal) all
        ]
]

cancel-Legal :
    (now : ℕ) (o : Outbox)
    → is_failed o.delivery_status ≡ false
    → Legal (cancel_row now o).status (cancel_row now o).delivery_status
cancel-Legal now o h = go o.delivery_status refl
  where
    go :
        (d : DeliveryStatus)
        → o.delivery_status ≡ d
        → Legal (cancel_row now o).status (cancel_row now o).delivery_status
    go not_attempted e = rw e tt
    go possibly_delivered e = rw e tt
    go confirmed e = rw e tt
    go failed e = cc (rw e at h)

pub cancel_delegation_refund-Legal :
    (now org id : ℕ) (db : Db)
    → AllLegal db.a2a_delegation_refund_outbox
    → KeepsLegal (cancel_delegation_refund now org id db)
unfolding cancel_delegation_refund
cancel_delegation_refund-Legal now org id db all = elim (Option-cases (outbox_row org id db)) [
  | inl missing ↦ rw (missing, cancel_delegation_refund, KeepsLegal) all
  | inr (o, found) ↦ elim (Bool-cases (is_open o.status && not (is_failed o.delivery_status))) [
    | inl e ↦
        rw (found, e, cancel_delegation_refund, KeepsLegal)
          (AllLegal-upsert id (cancel_row now o) db.a2a_delegation_refund_outbox
            (cancel-Legal now o (ground arith)) all)
    | inr e ↦ rw (found, e, cancel_delegation_refund, KeepsLegal) all
  ]
]
