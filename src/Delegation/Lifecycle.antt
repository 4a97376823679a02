-- ===== src/Delegation/Lifecycle.antt =====
-- The states that a funded delegation can be in, as (refund status, delivery status).
use teardrop.Common.{
  Bool-cases, Keyed, Option, Option-cases, arith, false, inl, inr, lookup, lookup-upsert, ltb, none,
  not, refl, some, subst, sym, true, upsert, ℕ, ◌&&◌, ◌+◌, ◌-◌, ◌<◌, ◌==◌, ◌||◌, ◌∙◌, ◌≡◌,
}
use teardrop.Delegation.{
  attempted, debit_principal, final_charge, is_confirmed, is_not_attempted, is_open,
  is_possibly_delivered, mark_locked, outbox_row, return_credit, return_row, signed_24h, trim_hold,
}
use teardrop.Ledger.{add_balance, get_credit_balance, insert_ledger, put_balance}
use teardrop.Ledger.Conservation.{insert_ledger-posted, posted}
use teardrop.Ledger.Entry.{add_balance-eq-ok}
use teardrop.Schema.{
  >>=-eq-ok, Db, DeliveryStatus, LedgerRow, Outbox, Reason, RefundStatus, Result, Settings, adjust,
  cancelled, confirmed, err, failed, not_attempted, ok, or_rollback, pending, possibly_delivered,
  refund_requested, refunded, ◌>>=◌,
}

-- A refunded delegation was not confirmed, a confirmed one is cancelled, and a definitive failure
-- is refunded in the transaction that records it.
abbrev pub Legal : RefundStatus → DeliveryStatus → Type 0
Legal pending not_attempted = Unit
Legal pending possibly_delivered = Unit
Legal refund_requested not_attempted = Unit
Legal refund_requested possibly_delivered = Unit
Legal refunded not_attempted = Unit
Legal refunded failed = Unit
Legal cancelled confirmed = Unit
Legal _ _ = ⊥

abbrev pub AllLegal : Keyed Outbox → Type 0
AllLegal t = (id : ℕ) (o : Outbox) → lookup id t ≡ some o → Legal o.status o.delivery_status

-- Every row but one is legal.
abbrev pub AllLegalBut : ℕ → Keyed Outbox → Type 0
AllLegalBut id t =
    (k : ℕ) (o : Outbox)
    → (id == k) ≡ false
    → lookup k t ≡ some o
    → Legal o.status o.delivery_status

-- Writing a legal row where the others are legal.
pub AllLegalBut-upsert :
    (id : ℕ) (o : Outbox) (t : Keyed Outbox)
    → Legal o.status o.delivery_status
    → AllLegalBut id t
    → AllLegal (upsert id o t)
AllLegalBut-upsert id o t legal all k r h =
    let found = sym (lookup-upsert id k o t) ∙ h in
    elim (Bool-cases (id == k)) [
      | inl same ↦
          let e : o ≡ r = cc (rw same at found) in
          subst (λ (x : Outbox). Legal x.status x.delivery_status) e legal
      | inr different ↦ all k r different (rw different at found)
    ]

pub AllLegal-upsert :
    (id : ℕ) (o : Outbox) (t : Keyed Outbox)
    → Legal o.status o.delivery_status
    → AllLegal t
    → AllLegal (upsert id o t)
AllLegal-upsert id o t legal all = AllLegalBut-upsert id o t legal (λ k r _ h. all k r h)

-- Writing any row leaves the others as they were.
pub AllLegalBut-write :
    (id : ℕ) (o : Outbox) (t : Keyed Outbox) → AllLegal t → AllLegalBut id (upsert id o t)
AllLegalBut-write id o t all k r different h =
    all k r (rw different at (sym (lookup-upsert id k o t) ∙ h))

pub outbox-posted :
    (r : LedgerRow) (n : ℕ) (db : Db)
    → (posted r n db).a2a_delegation_refund_outbox ≡ db.a2a_delegation_refund_outbox
unfolding put_balance
outbox-posted r n db = refl

pub outbox_row-lookup :
    (org id : ℕ) (db : Db) {o : Outbox}
    → outbox_row org id db ≡ some o
    → (lookup id db.a2a_delegation_refund_outbox ≡ some o) × (o.org_id ≡ org)
unfolding outbox_row
outbox_row-lookup org id db h = ground arith

-- Money that goes back is one posting of a top-up.
pub return_credit-posted :
    (now entry org amount : ℕ) (reason : Reason) (principal reverses : Option ℕ) (db : Db) {n : ℕ}
    {db' : Db}
    → return_credit now entry org amount reason principal reverses db ≡ ok (n, db')
    → (db' ≡ posted (return_row now entry org amount n reason principal reverses) n db)
      × (n ≡ get_credit_balance org db + amount)
      × (0 < amount)
unfolding return_credit
return_credit-posted now entry org amount reason principal reverses db {n} {db'} h =
    let row = λ (m : ℕ). return_row now entry org amount m reason principal reverses in
    let (r, added, rest) = >>=-eq-ok (add_balance org amount db) _ h in
    let (sum_eq, _, put) = add_balance-eq-ok org amount db added in
    let (d, inserted, same) = >>=-eq-ok (insert_ledger (row r.0) r.1) _ rest in
    let at_put = rw put at inserted in
    let (written, positive, _) = insert_ledger-posted (row r.0) r.0 db at_put in
    let n_eq : n ≡ r.0 = cc same in
    let d_eq : db' ≡ d = cc same in (rw n_eq (d_eq ∙ written), rw n_eq sum_eq, positive)

-- What a call answers and leaves.
abbrev pub KeepsLegal {ℓ} : {A : Type ℓ} → A × Db → Type 0
KeepsLegal r = AllLegal r.1.a2a_delegation_refund_outbox

abbrev pub ReturnsLegal : {A : Type 0} → Result (A × Db) → Type 0
ReturnsLegal (ok r) = KeepsLegal r
ReturnsLegal (err e) = Unit

pub rollback-KeepsLegal :
    {A : Type 0} (db : Db) (a : A) (r : Result (A × Db))
    → AllLegal db.a2a_delegation_refund_outbox
    → ReturnsLegal r
    → KeepsLegal (or_rollback db a r)
rollback-KeepsLegal db a (ok r) all h = h
rollback-KeepsLegal db a (err e) all h = all

pub bind-ReturnsLegal :
    {A B : Type 0} (r : Result (A × Db)) (f : A × Db → Result (B × Db))
    → ((x : A × Db) → r ≡ ok x → ReturnsLegal (f x))
    → ReturnsLegal (r >>= f)
bind-ReturnsLegal (ok x) f h = h x refl
bind-ReturnsLegal (err e) f h = tt

pub return_credit-outbox :
    (now entry org amount : ℕ) (reason : Reason) (principal reverses : Option ℕ) (db : Db)
    {r : ℕ × Db}
    → return_credit now entry org amount reason principal reverses db ≡ ok r
    → r.1.a2a_delegation_refund_outbox ≡ db.a2a_delegation_refund_outbox
return_credit-outbox now entry org amount reason principal reverses db {r} h =
    let (written, _, _) =
      return_credit-posted now entry org amount reason principal reverses db h in
    rw written
      (outbox-posted (return_row now entry org amount r.0 reason principal reverses) r.0 db)

pub row-Legal :
    (org id : ℕ) (db : Db) {o : Outbox}
    → AllLegal db.a2a_delegation_refund_outbox
    → outbox_row org id db ≡ some o
    → Legal o.status o.delivery_status
row-Legal org id db {o} all h = all id o (outbox_row-lookup org id db h).0

attempted-Legal : (r : RefundStatus) → is_open r ≡ true → Legal r possibly_delivered
attempted-Legal pending h = tt
attempted-Legal refund_requested h = tt
attempted-Legal refunded h = cc
attempted-Legal cancelled h = cc

pub trim_hold-outbox :
    (now entry org id c : ℕ) (o : Outbox) (db : Db) (r : ℕ × Db)
    → trim_hold now entry org id c o db ≡ ok r
    → r.1.a2a_delegation_refund_outbox ≡ db.a2a_delegation_refund_outbox
unfolding trim_hold
trim_hold-outbox now entry org id c o db r h = elim (Bool-cases (ltb c o.amount_usdc)) [
  | inl less ↦
      return_credit-outbox now entry org (o.amount_usdc - c) (adjust id o.run_id)
        (debit_principal o db) none db (rw less at h)
  | inr equal ↦ let same : (0, db) ≡ r = cc (rw equal at h) in rw (← same)
]

-- Marking a delegation keeps every row legal.
pub mark_locked-Legal :
    (s : Settings) (now entry org id : ℕ) (charge : Option ℕ) (o : Outbox) (db : Db)
    → AllLegal db.a2a_delegation_refund_outbox
    → ReturnsLegal (mark_locked s now entry org id charge o db)
unfolding mark_locked
mark_locked-Legal s now entry org id charge o db all =
    elim (Bool-cases (is_possibly_delivered o.delivery_status || is_confirmed o.delivery_status)) [
      | inl e ↦ rw (e, mark_locked, ReturnsLegal) all
      | inr e ↦ elim (Bool-cases (not (is_not_attempted o.delivery_status && is_open o.status))) [
        | inl f ↦ rw (e, f, mark_locked, ReturnsLegal) all
        | inr f ↦ elim (Option-cases (final_charge charge o)) [
          | inl g ↦ rw (e, f, g, mark_locked, ReturnsLegal) all
          | inr (c, g) ↦
              elim (Bool-cases
                (ltb s.a2a_treasury_daily_outflow_cap_usdc (signed_24h now db + c))) [
                  | inl over ↦ rw (e, f, g, over, mark_locked, ReturnsLegal) all
                  | inr under ↦
                      rw (e, f, g, under, mark_locked)
                        (bind-ReturnsLegal (trim_hold now entry org id c o db) _ (λ r q.
                          AllLegal-upsert id (attempted now c o) r.1.a2a_delegation_refund_outbox
                            (attempted-Legal o.status (ground arith))
                            (rw (trim_hold-outbox now entry org id c o db r q) all)))
                ]
        ]
      ]
    ]
