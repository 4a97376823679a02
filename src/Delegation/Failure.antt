-- ===== src/Delegation/Failure.antt =====
-- What a definitive failure of a delegation does, for each state of its row.
use teardrop.Common.{
  Bool, Bool-cases, arith, false, if◌then◌else◌, inl, inr, not, refl, some, subst, sym, true, ℕ,
  ◌&&◌, ◌+◌, ◌==◌, ◌||◌, ◌∙◌, ◌≡◌, ◌⊎◌,
}
use teardrop.Delegation.{
  debit_principal, is_cancelled, is_confirmed, is_failed, is_open, is_possibly_delivered,
  is_refunded, outbox_row, put_outbox, return_credit,
}
use teardrop.Delegation.Closing.{outbox_row-same, outbox_row-write}
use teardrop.Delegation.Funding.{held}
use teardrop.Delegation.Lifecycle.{Legal, outbox_row-lookup, return_credit-outbox}
use teardrop.Delegation.Money.{balance-put_outbox, held-row, return_credit-balance}
use teardrop.Delegation.Resolution.{
  already_reversed, close_refund, complete_refund_locked, fail_delegation_delivery, fail_locked,
  failed_row, refundable, refunded_row,
}
use teardrop.Ledger.{get_credit_balance}
use teardrop.Schema.{
  Db, DeliveryStatus, Failure, Outbox, RefundStatus, Result, Result-cases, cancelled, confirmed,
  err, failed, not_attempted, ok, or_rollback, pending, possibly_delivered, refund,
  refund_requested, refunded, ◌>>=◌,
}

-- The row is refunded, for a delivery that failed, and each balance has what was held for the org.
abbrev pub GivesBack : (org id : ℕ) → Db → Bool × Db → Type 0
GivesBack org id db (answered, db') =
    (answered ≡ true)
    × ((o : Outbox) × (outbox_row org id db' ≡ some o)
        × (o.status ≡ refunded)
        × (o.delivery_status ≡ failed))
    × ((k : ℕ)
        → get_credit_balance k db'
          ≡ get_credit_balance k db + (if org == k then held org id db else 0))

-- The payment of the failure, which writes the row first.
abbrev pub failure_payment : (now entry org id : ℕ) → Outbox → Db → Result (ℕ × Db)
failure_payment now entry org id o db =
    let db' = put_outbox id (failed_row now o) db in
    return_credit now entry org o.amount_usdc (refund id o.run_id) (debit_principal o db')
      o.debit_ledger_id db'

-- Nothing is written, for the delivery is not under way or the payment is refused.
abbrev pub GivesNothing : (now entry org id : ℕ) → Outbox → Db → Bool × Db → Type 0
GivesNothing now entry org id o db (answered, db') =
    (answered ≡ false)
    × (db' ≡ db)
    × ((is_possibly_delivered o.delivery_status ≡ false)
        ⊎ ((why : Failure) × (failure_payment now entry org id o db ≡ err why)))

abbrev pub FailureOutcome : (now entry org id : ℕ) → Outbox → Db → Bool × Db → Type 0
FailureOutcome now entry org id o db r =
    GivesBack org id db r ⊎ GivesNothing now entry org id o db r

fail_locked-attempted :
    (now entry org id : ℕ) (o : Outbox) (db : Db)
    → is_possibly_delivered o.delivery_status ≡ true
    → is_open o.status ≡ true
    → already_reversed o db ≡ false
    → fail_locked now entry org id o db ≡ (
        failure_payment now entry org id o db >>= λ r. ok (true, close_refund false now org id r.1))
unfolding fail_locked complete_refund_locked already_reversed
fail_locked-attempted now entry org id o db attempted_it open_row unpaid =
    let a : (is_confirmed o.delivery_status || is_cancelled o.status) ≡ false =
      ground (arith, attempted_it, open_row) in
    let b : (is_failed o.delivery_status && is_refunded o.status) ≡ false =
      ground (arith, attempted_it, open_row) in
    let c : is_refunded o.status ≡ false = ground (arith, open_row) in
    let e : (not (is_possibly_delivered o.delivery_status || is_failed o.delivery_status)) ≡ false =
      ground (arith, attempted_it) in
    let unpaid' : already_reversed o (put_outbox id (failed_row now o) db) ≡ false = unpaid in
    rw (fail_locked, a, b, c, e, complete_refund_locked, unpaid') refl

paid-GivesBack :
    (now entry org id : ℕ) (o : Outbox) (db : Db) (r : ℕ × Db)
    → outbox_row org id db ≡ some o
    → is_open o.status ≡ true
    → failure_payment now entry org id o db ≡ ok r
    → GivesBack org id db (true, close_refund false now org id r.1)
unfolding close_refund
paid-GivesBack now entry org id o db r found open_row paid =
    let o' = failed_row now o in
    let db' = put_outbox id o' db in
    let owned = (outbox_row-lookup org id db found).1 in
    let same =
      return_credit-outbox now entry org o.amount_usdc (refund id o.run_id) (debit_principal o db')
        o.debit_ledger_id db' paid in
    let found' = outbox_row-same org id db' r.1 same ∙ outbox_row-write org id o' db owned in
    let owed : refundable o' ≡ true = ground (arith, open_row) in
    let closed : close_refund false now org id r.1 ≡ put_outbox id (refunded_row false now o') r.1 =
      rw (found', owed, close_refund) refl in
    subst (λ d. GivesBack org id db (true, d)) (sym closed)
      (
        refl,
        (
          refunded_row false now o',
          outbox_row-write org id (refunded_row false now o') r.1 owned,
          refl,
          refl,
        ),
        λ k. ground (
          arith,
          balance-put_outbox id k o' db,
          balance-put_outbox id k (refunded_row false now o') r.1,
          return_credit-balance now entry org o.amount_usdc (refund id o.run_id)
              (debit_principal o db') o.debit_ledger_id db' k paid,
          held-row org id db o found,
          open_row,
        ),
      )

attempted_open :
    (r : RefundStatus) (d : DeliveryStatus)
    → Legal r d
    → is_possibly_delivered d ≡ true
    → is_open r ≡ true
attempted_open pending d legal h = refl
attempted_open refund_requested d legal h = refl
attempted_open refunded not_attempted legal h = cc
attempted_open refunded failed legal h = cc
attempted_open refunded possibly_delivered legal h = absurd legal
attempted_open refunded confirmed legal h = absurd legal
attempted_open cancelled confirmed legal h = cc
attempted_open cancelled not_attempted legal h = absurd legal
attempted_open cancelled possibly_delivered legal h = absurd legal
attempted_open cancelled failed legal h = absurd legal

attempted-FailureOutcome :
    (now entry org id : ℕ) (o : Outbox) (db : Db)
    → outbox_row org id db ≡ some o
    → is_possibly_delivered o.delivery_status ≡ true
    → is_open o.status ≡ true
    → already_reversed o db ≡ false
    → FailureOutcome now entry org id o db
        (or_rollback db false (fail_locked now entry org id o db))
attempted-FailureOutcome now entry org id o db found attempted_it open_row unpaid =
    subst (λ r. FailureOutcome now entry org id o db (or_rollback db false r))
      (sym (fail_locked-attempted now entry org id o db attempted_it open_row unpaid))
      (elim (Result-cases (failure_payment now entry org id o db)) [
        | inr (why, e) ↦ rw e (inr (refl, refl, inr (why, refl)))
        | inl (r, e) ↦ rw e (inl (paid-GivesBack now entry org id o db r found open_row e))
      ])

unwritten-FailureOutcome :
    (now entry org id : ℕ) (o : Outbox) (db : Db)
    → is_possibly_delivered o.delivery_status ≡ false
    → fail_locked now entry org id o db ≡ ok (false, db)
    → FailureOutcome now entry org id o db
        (or_rollback db false (fail_locked now entry org id o db))
unwritten-FailureOutcome now entry org id o db idle same =
    subst (λ x. FailureOutcome now entry org id o db (or_rollback db false x)) (sym same)
      (inr (refl, refl, inl idle))

-- In each legal state that is not an attempt under way, nothing is written: the answer is true when the
-- failure is recorded and refunded before, and false otherwise.
idle-FailureOutcome :
    (now entry org id : ℕ) (o : Outbox) (db : Db) (r : RefundStatus) (d : DeliveryStatus)
    → outbox_row org id db ≡ some o
    → o.status ≡ r
    → o.delivery_status ≡ d
    → Legal r d
    → is_possibly_delivered d ≡ false
    → FailureOutcome now entry org id o db
        (or_rollback db false (fail_locked now entry org id o db))
unfolding fail_locked
idle-FailureOutcome now entry org id o db refunded failed found e f legal idle =
    let same : fail_locked now entry org id o db ≡ ok (true, db) = ground (arith, e, f) in
    let closed : is_open o.status ≡ false = ground (arith, e) in
    subst (λ x. FailureOutcome now entry org id o db (or_rollback db false x)) (sym same)
      (inl (refl, (o, found, e, f), λ k. ground (arith, held-row org id db o found, closed)))
idle-FailureOutcome now entry org id o db pending not_attempted found e f legal idle =
    unwritten-FailureOutcome now entry org id o db (ground (arith, f)) (ground (arith, e, f))
idle-FailureOutcome now entry org id o db refund_requested not_attempted found e f legal idle =
    unwritten-FailureOutcome now entry org id o db (ground (arith, f)) (ground (arith, e, f))
idle-FailureOutcome now entry org id o db refunded not_attempted found e f legal idle =
    unwritten-FailureOutcome now entry org id o db (ground (arith, f)) (ground (arith, e, f))
idle-FailureOutcome now entry org id o db cancelled confirmed found e f legal idle =
    unwritten-FailureOutcome now entry org id o db (ground (arith, f)) (ground (arith, e, f))
idle-FailureOutcome now entry org id o db pending possibly_delivered found e f legal idle = cc
idle-FailureOutcome now entry org id o db pending failed found e f legal idle = absurd legal
idle-FailureOutcome now entry org id o db pending confirmed found e f legal idle = absurd legal
idle-FailureOutcome now entry org id o db refund_requested possibly_delivered found e f legal idle =
    cc
idle-FailureOutcome now entry org id o db refund_requested failed found e f legal idle =
    absurd legal
idle-FailureOutcome now entry org id o db refund_requested confirmed found e f legal idle =
    absurd legal
idle-FailureOutcome now entry org id o db refunded possibly_delivered found e f legal idle =
    absurd legal
idle-FailureOutcome now entry org id o db refunded confirmed found e f legal idle = absurd legal
idle-FailureOutcome now entry org id o db cancelled not_attempted found e f legal idle =
    absurd legal
idle-FailureOutcome now entry org id o db cancelled possibly_delivered found e f legal idle =
    absurd legal
idle-FailureOutcome now entry org id o db cancelled failed found e f legal idle = absurd legal

-- When the failure of a delegation is recorded, for a row in a legal state whose debit is not
-- reversed, then either the answer is true, the row is refunded with its delivery failed, and the
-- balance of the org, and of no other, has grown by exactly what was held for the delegation; or the
-- answer is false and the state is as it was, and that only when the delivery is not under way or the
-- payment is refused.
pub fail_delegation_delivery-FailureOutcome :
    (now entry org id : ℕ) (o : Outbox) (db : Db)
    → outbox_row org id db ≡ some o
    → Legal o.status o.delivery_status
    → already_reversed o db ≡ false
    → FailureOutcome now entry org id o db (fail_delegation_delivery now entry org id db)
unfolding fail_delegation_delivery
fail_delegation_delivery-FailureOutcome now entry org id o db found legal unpaid =
    let same : fail_delegation_delivery now entry org id db
        ≡ or_rollback db false (fail_locked now entry org id o db) =
      rw (found, fail_delegation_delivery) refl in
    subst (FailureOutcome now entry org id o db) (sym same)
      (elim (Bool-cases (is_possibly_delivered o.delivery_status)) [
        | inr idle ↦
            idle-FailureOutcome now entry org id o db o.status o.delivery_status found refl refl
              legal idle
        | inl attempted_it ↦
            attempted-FailureOutcome now entry org id o db found attempted_it
              (attempted_open o.status o.delivery_status legal attempted_it) unpaid
      ])
