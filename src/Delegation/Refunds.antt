-- ===== src/Delegation/Refunds.antt =====
-- Refunds: a requested refund keeps the balance with what is held, and a closed row stays as it is.
use teardrop.Common.{
  Bool, Bool-cases, Option, Option-cases, arith, false, inl, inr, refl, some, true, ℕ, ◌||◌, ◌≡◌,
}
use teardrop.Delegation.{is_cancelled, is_refunded, mark_delegation_possibly_delivered, outbox_row}
use teardrop.Delegation.Lifecycle.{Legal}
use teardrop.Delegation.Money.{complete_refund_locked-Conserves, exposure, rollback-Conserves}
use teardrop.Delegation.Resolution.{
  already_reversed, cancel_delegation_refund, complete_delegation_refund, complete_refund_locked,
  confirm_delegation_delivery, due, fail_delegation_delivery, refundable, request_delegation_refund,
}
use teardrop.Schema.{
  Db, DeliveryStatus, Outbox, RefundStatus, Settings, cancelled, confirmed, failed, not_attempted,
  pending, possibly_delivered, refund_requested, refunded,
}

-- A refund that was requested keeps the balance of every org with what is held for the delegation.
complete_delegation_refund-exposure :
    (now entry org id : ℕ) (db : Db)
    → ((o : Outbox) → outbox_row org id db ≡ some o → already_reversed o db ≡ false)
    → (k : ℕ)
    → exposure org id k (complete_delegation_refund now entry org id db).1 ≡ exposure org id k db
unfolding complete_delegation_refund
complete_delegation_refund-exposure now entry org id db unpaid =
    elim (Option-cases (outbox_row org id db)) [
      | inl missing ↦ rw (missing, complete_delegation_refund) (λ k. refl)
      | inr (o, found) ↦ elim (Bool-cases (refundable o)) [
        | inl due ↦
            rw (found, due, complete_delegation_refund)
              (rollback-Conserves org id db false (complete_refund_locked now entry org id o db) (
                complete_refund_locked-Conserves now entry org id o o db db found due refl
                  (unpaid o found) (λ k. refl)))
        | inr not_due ↦ rw (found, not_due, complete_delegation_refund) (λ k. refl)
      ]
    ]

-- A row that is refunded or cancelled.
abbrev pub is_closed : RefundStatus → Bool
is_closed s = is_refunded s || is_cancelled s

-- Once a delegation is refunded or cancelled, with its row in a legal state, no later failure,
-- confirmation, refund, cancellation or mark changes anything: so a refund is paid once.
pub closed_is_final :
    (s : Settings) (now entry org id : ℕ) (charge : Option ℕ) (db : Db) (o : Outbox)
    → outbox_row org id db ≡ some o
    → Legal o.status o.delivery_status
    → is_closed o.status ≡ true
    → ((fail_delegation_delivery now entry org id db).1 ≡ db)
      × ((complete_delegation_refund now entry org id db).1 ≡ db)
      × ((request_delegation_refund org id db).1 ≡ db)
      × ((confirm_delegation_delivery now org id db).1 ≡ db)
      × ((cancel_delegation_refund now org id db).1 ≡ db)
      × ((mark_delegation_possibly_delivered s now entry org id charge db).1 ≡ db)
unfolding fail_delegation_delivery complete_delegation_refund request_delegation_refund
    confirm_delegation_delivery cancel_delegation_refund mark_delegation_possibly_delivered
closed_is_final s now entry org id charge db o found legal closed =
    go o.status o.delivery_status refl refl legal
  where
    go :
        (r : RefundStatus) (d : DeliveryStatus)
        → o.status ≡ r
        → o.delivery_status ≡ d
        → Legal r d
        → ((fail_delegation_delivery now entry org id db).1 ≡ db)
          × ((complete_delegation_refund now entry org id db).1 ≡ db)
          × ((request_delegation_refund org id db).1 ≡ db)
          × ((confirm_delegation_delivery now org id db).1 ≡ db)
          × ((cancel_delegation_refund now org id db).1 ≡ db)
          × ((mark_delegation_possibly_delivered s now entry org id charge db).1 ≡ db)
    go refunded not_attempted e f l = ground (arith, found, e, f)
    go refunded failed e f l = ground (arith, found, e, f)
    go cancelled confirmed e f l = ground (arith, found, e, f)
    go refunded confirmed e f l = absurd l
    go refunded possibly_delivered e f l = absurd l
    go cancelled not_attempted e f l = absurd l
    go cancelled possibly_delivered e f l = absurd l
    go cancelled failed e f l = absurd l
    go pending d e f l = cc (rw e at closed)
    go refund_requested d e f l = cc (rw e at closed)
