-- ===== src/Delegation/Money.antt =====
-- Where the money of a delegation is: in the balance, or held for an open row.
use teardrop.Common.{
  Bool-cases, Option, Option-cases, arith, false, if◌then◌else◌, inl, inr, ltb, none, not, refl,
  some, true, ℕ, ◌&&◌, ◌+◌, ◌-◌, ◌==◌, ◌||◌, ◌∙◌, ◌≡◌, ◌≤◌,
}
use teardrop.Delegation.{
  attempted, debit_principal, final_charge, is_confirmed, is_not_attempted, is_open,
  is_possibly_delivered, mark_delegation_possibly_delivered, mark_locked, outbox_row, put_outbox,
  return_credit, return_row, signed_24h, trim_hold,
}
use teardrop.Delegation.Closing.{outbox_row-same, outbox_row-write}
use teardrop.Delegation.Funding.{held}
use teardrop.Delegation.Lifecycle.{outbox_row-lookup, return_credit-outbox, return_credit-posted}
use teardrop.Delegation.Resolution.{
  already_reversed, close_refund, complete_refund_locked, due, refundable, refunded_row,
}
use teardrop.Ledger.{get_credit_balance}
use teardrop.Ledger.Conservation.{get_credit_balance-posted}
use teardrop.Schema.{
  Db, Outbox, Reason, Result, Settings, adjust, err, ok, or_rollback, refund, ◌>>=◌,
}

-- The balance of an org with what is held for one delegation of org `org`.
abbrev pub exposure : ℕ → ℕ → ℕ → Db → ℕ
exposure org id k db = get_credit_balance k db + (if org == k then held org id db else 0)

pub return_credit-balance :
    (now entry org amount : ℕ) (reason : Reason) (principal reverses : Option ℕ) (db : Db) (k : ℕ)
    {r : ℕ × Db}
    → return_credit now entry org amount reason principal reverses db ≡ ok r
    → get_credit_balance k r.1 ≡ get_credit_balance k db + (if org == k then amount else 0)
return_credit-balance now entry org amount reason principal reverses db k {r} h =
    let (written, sum_eq, _) =
      return_credit-posted now entry org amount reason principal reverses db h in
    rw written (
      ground (
        arith,
        sum_eq,
        get_credit_balance-posted (return_row now entry org amount r.0 reason principal reverses)
            r.0 k db,
      ))

trim_hold-balance :
    (now entry org id c : ℕ) (o : Outbox) (db : Db) (k : ℕ) (r : ℕ × Db)
    → trim_hold now entry org id c o db ≡ ok r
    → get_credit_balance k r.1
      ≡ get_credit_balance k db + (if org == k then o.amount_usdc - c else 0)
unfolding trim_hold
trim_hold-balance now entry org id c o db k r h = elim (Bool-cases (ltb c o.amount_usdc)) [
  | inl less ↦
      return_credit-balance now entry org (o.amount_usdc - c) (adjust id o.run_id)
        (debit_principal o db) none db k (rw less at h)
  | inr equal ↦ let same : (0, db) ≡ r = cc (rw equal at h) in rw (← same) (ground arith)
]

final_charge-le :
    (charge : Option ℕ) (o : Outbox) (c : ℕ) → final_charge charge o ≡ some c → c ≤ o.amount_usdc
unfolding final_charge
final_charge-le none o c h = ground arith
final_charge-le (some v) o c h = ground arith

pub held-row :
    (org id : ℕ) (db : Db) (o : Outbox)
    → outbox_row org id db ≡ some o
    → held org id db ≡ (if is_open o.status then o.amount_usdc else 0)
unfolding held
held-row org id db o h = rw (h, held) refl

-- The answer of a transaction that conserves, for every org.
abbrev pub Conserves : {A : Type 0} → ℕ → ℕ → Db → A × Db → Type 0
Conserves org id db r = (k : ℕ) → exposure org id k r.1 ≡ exposure org id k db

abbrev pub ReturnsConserved : {A : Type 0} → ℕ → ℕ → Db → Result (A × Db) → Type 0
ReturnsConserved org id db (ok r) = Conserves org id db r
ReturnsConserved org id db (err e) = Unit

pub rollback-Conserves :
    {A : Type 0} (org id : ℕ) (db : Db) (a : A) (r : Result (A × Db))
    → ReturnsConserved org id db r
    → Conserves org id db (or_rollback db a r)
rollback-Conserves org id db a (ok r) h = h
rollback-Conserves org id db a (err e) h = λ k. refl

bind-ReturnsConserved :
    {A B : Type 0} (org id : ℕ) (db : Db) (r : Result (A × Db)) (f : A × Db → Result (B × Db))
    → ((x : A × Db) → r ≡ ok x → ReturnsConserved org id db (f x))
    → ReturnsConserved org id db (r >>= f)
bind-ReturnsConserved org id db (ok x) f h = h x refl
bind-ReturnsConserved org id db (err e) f h = tt

pub balance-put_outbox :
    (id k : ℕ) (o : Outbox) (db : Db)
    → get_credit_balance k (put_outbox id o db) ≡ get_credit_balance k db
unfolding get_credit_balance
balance-put_outbox id k o db = refl

attempt-Conserves :
    (now entry org id c : ℕ) (o : Outbox) (db : Db) (r : ℕ × Db)
    → outbox_row org id db ≡ some o
    → is_open o.status ≡ true
    → c ≤ o.amount_usdc
    → trim_hold now entry org id c o db ≡ ok r
    → Conserves org id db (true, put_outbox id (attempted now c o) r.1)
attempt-Conserves now entry org id c o db r found open_row fits trimmed k =
    let o' = attempted now c o in
    let owned = (outbox_row-lookup org id db found).1 in
    ground (
      arith,
      balance-put_outbox id k o' r.1,
      trim_hold-balance now entry org id c o db k r trimmed,
      held-row org id db o found,
      held-row org id (put_outbox id o' r.1) o' (outbox_row-write org id o' r.1 owned),
    )

mark_locked-Conserves :
    (s : Settings) (now entry org id : ℕ) (charge : Option ℕ) (o : Outbox) (db : Db)
    → outbox_row org id db ≡ some o
    → ReturnsConserved org id db (mark_locked s now entry org id charge o db)
unfolding mark_locked
mark_locked-Conserves s now entry org id charge o db found =
    elim (Bool-cases (is_possibly_delivered o.delivery_status || is_confirmed o.delivery_status)) [
      | inl e ↦ rw (e, mark_locked, ReturnsConserved) (λ k. refl)
      | inr e ↦ elim (Bool-cases (not (is_not_attempted o.delivery_status && is_open o.status))) [
        | inl f ↦ rw (e, f, mark_locked, ReturnsConserved) (λ k. refl)
        | inr f ↦ elim (Option-cases (final_charge charge o)) [
          | inl g ↦ rw (e, f, g, mark_locked, ReturnsConserved) (λ k. refl)
          | inr (c, g) ↦
              elim (Bool-cases
                (ltb s.a2a_treasury_daily_outflow_cap_usdc (signed_24h now db + c))) [
                  | inl over ↦ rw (e, f, g, over, mark_locked, ReturnsConserved) (λ k. refl)
                  | inr under ↦
                      rw (e, f, g, under, mark_locked)
                        (bind-ReturnsConserved org id db (trim_hold now entry org id c o db) _
                          (λ r q.
                            attempt-Conserves now entry org id c o db r found (ground arith)
                              (final_charge-le charge o c g) q))
                ]
        ]
      ]
    ]

-- Marking a delegation possibly delivered moves money between the org's balance and the hold, and
-- neither makes nor loses any: for every org the balance with the hold is what it was, whatever
-- the call answers.
pub mark_delegation_possibly_delivered-exposure :
    (s : Settings) (now entry org id : ℕ) (charge : Option ℕ) (db : Db) (k : ℕ)
    → exposure org id k (mark_delegation_possibly_delivered s now entry org id charge db).1
      ≡ exposure org id k db
unfolding mark_delegation_possibly_delivered
mark_delegation_possibly_delivered-exposure s now entry org id charge db =
    elim (Option-cases (outbox_row org id db)) [
      | inl missing ↦ rw (missing, mark_delegation_possibly_delivered) (λ k. refl)
      | inr (o, found) ↦
          rw (found, mark_delegation_possibly_delivered)
            (rollback-Conserves org id db false (mark_locked s now entry org id charge o db)
              (mark_locked-Conserves s now entry org id charge o db found))
    ]

held-refunded :
    (now org id : ℕ) (o : Outbox) (db : Db)
    → o.org_id ≡ org
    → held org id (put_outbox id (refunded_row false now o) db) ≡ 0
held-refunded now org id o db owned =
    held-row org id (put_outbox id (refunded_row false now o) db) (refunded_row false now o)
      (outbox_row-write org id (refunded_row false now o) db owned)

-- The refund of an open row whose debit is not reversed. `row` is what the caller has read, `o`
-- the row as the transaction has it now, and `start` the state that the amounts are compared with.
pub complete_refund_locked-Conserves :
    (now entry org id : ℕ) (row o : Outbox) (start db : Db)
    → outbox_row org id db ≡ some o
    → refundable o ≡ true
    → row.amount_usdc ≡ o.amount_usdc
    → already_reversed row db ≡ false
    → ((k : ℕ) → exposure org id k db ≡ exposure org id k start)
    → ReturnsConserved org id start (complete_refund_locked now entry org id row db)
unfolding complete_refund_locked close_refund
complete_refund_locked-Conserves now entry org id row o start db found due same_amount unpaid base =
    let back =
      return_credit now entry org row.amount_usdc (refund id row.run_id) (debit_principal row db)
        row.debit_ledger_id db in
    rw (unpaid, complete_refund_locked)
      (bind-ReturnsConserved org id start back _ (λ r q.
        let same =
          return_credit-outbox now entry org row.amount_usdc (refund id row.run_id)
            (debit_principal row db) row.debit_ledger_id db q in
        let found' = outbox_row-same org id db r.1 same ∙ found in
        rw (found', due, close_refund, ReturnsConserved)
          (λ k. ground (
            arith,
            base k,
            balance-put_outbox id k (refunded_row false now o) r.1,
            return_credit-balance now entry org row.amount_usdc (refund id row.run_id)
                (debit_principal row db) row.debit_ledger_id db k q,
            held-row org id db o found,
            held-refunded now org id o r.1 (outbox_row-lookup org id db found).1,
          ))))
