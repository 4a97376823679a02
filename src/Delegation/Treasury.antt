-- ===== src/Delegation/Treasury.antt =====
-- The treasury's rolling limit on what it signs.
use teardrop.Common.{
  Bool, Bool-cases, Option, Option-cases, arith, false, inl, inr, lookup, ltb, none, not, refl,
  some, sum_where-upsert, true, ℕ, ◌&&◌, ◌+◌, ◌||◌, ◌≡◌, ◌≤◌,
}
use teardrop.Delegation.{
  attempted, final_charge, is_confirmed, is_not_attempted, is_open, is_possibly_delivered,
  mark_delegation_possibly_delivered, mark_locked, outbox_row, put_outbox, signed_24h, trim_hold,
}
use teardrop.Delegation.Lifecycle.{outbox_row-lookup, trim_hold-outbox}
use teardrop.Schema.{
  Db, Outbox, Result, Settings, day_us, err, not_attempted, ok, or_rollback, since, ◌>>=◌,
}

signed_24h-upsert :
    (now id c : ℕ) (o : Outbox) (db db' : Db)
    → lookup id db.a2a_delegation_refund_outbox ≡ some o
    → db'.a2a_delegation_refund_outbox ≡ db.a2a_delegation_refund_outbox
    → signed_24h now (put_outbox id (attempted now c o) db') ≤ signed_24h now db + c
unfolding signed_24h
signed_24h-upsert now id c o db db' found same = rw same (
    ground (
      arith,
      sum_where-upsert
          (λ (e : ℕ × Outbox). elim e.1.delivery_started_at [
            | none ↦ false
            | some t ↦ since now day_us t
          ])
          (λ (e : ℕ × Outbox). e.1.amount_usdc) id (attempted now c o)
          db.a2a_delegation_refund_outbox found,
    ))

-- What a result that answers true leaves.
abbrev IfTrue : (Db → Type 0) → Bool × Db → Type 0
IfTrue P (true, db) = P db
IfTrue P (false, db) = Unit

abbrev ResultIfTrue : (Db → Type 0) → Result (Bool × Db) → Type 0
ResultIfTrue P (ok r) = IfTrue P r
ResultIfTrue P (err e) = Unit

bind-ResultIfTrue :
    {A : Type 0} (P : Db → Type 0) (r : Result (A × Db)) (f : A × Db → Result (Bool × Db))
    → ((x : A × Db) → r ≡ ok x → ResultIfTrue P (f x))
    → ResultIfTrue P (r >>= f)
bind-ResultIfTrue P (ok x) f h = h x refl
bind-ResultIfTrue P (err e) f h = tt

rollback-IfTrue :
    (P : Db → Type 0) (db : Db) (r : Result (Bool × Db))
    → ResultIfTrue P r
    → IfTrue P (or_rollback db false r)
rollback-IfTrue P db (ok r) h = h
rollback-IfTrue P db (err e) h = tt

mark_locked-cap :
    (s : Settings) (now entry org id : ℕ) (charge : Option ℕ) (o : Outbox) (db : Db)
    → outbox_row org id db ≡ some o
    → o.delivery_status ≡ not_attempted
    → ResultIfTrue
        (λ d. signed_24h now d ≤ s.a2a_treasury_daily_outflow_cap_usdc)
        (mark_locked s now entry org id charge o db)
unfolding mark_locked
mark_locked-cap s now entry org id charge o db found fresh =
    let P : Db → Type 0 = λ d. signed_24h now d ≤ s.a2a_treasury_daily_outflow_cap_usdc in
    let e : (is_possibly_delivered o.delivery_status || is_confirmed o.delivery_status) ≡ false =
      rw fresh refl in
    elim (Bool-cases (not (is_not_attempted o.delivery_status && is_open o.status))) [
      | inl f ↦ rw (e, f, mark_locked, ResultIfTrue) tt
      | inr f ↦ elim (Option-cases (final_charge charge o)) [
        | inl g ↦ rw (e, f, g, mark_locked, ResultIfTrue) tt
        | inr (c, g) ↦
            elim (Bool-cases (ltb s.a2a_treasury_daily_outflow_cap_usdc (signed_24h now db + c))) [
              | inl over ↦ rw (e, f, g, over, mark_locked, ResultIfTrue) tt
              | inr under ↦
                  rw (e, f, g, under, mark_locked)
                    (bind-ResultIfTrue P (trim_hold now entry org id c o db) _ (λ r q. ground (
                      arith,
                      signed_24h-upsert now id c o db r.1 (outbox_row-lookup org id db found).0
                          (trim_hold-outbox now entry org id c o db r q),
                    )))
            ]
      ]
    ]

answer-IfTrue : (P : Db → Type 0) (r : Bool × Db) → IfTrue P r → r.0 ≡ true → P r.1
answer-IfTrue P (true, db) h e = h
answer-IfTrue P (false, db) h e = cc

-- When a call marks a delegation that was not attempted and answers true, what the treasury has
-- signed in the last 24 hours, this payment included, is within its limit.
pub mark_delegation_possibly_delivered-within_cap :
    (s : Settings) (now entry org id : ℕ) (charge : Option ℕ) (db : Db) (o : Outbox)
    → outbox_row org id db ≡ some o
    → o.delivery_status ≡ not_attempted
    → (mark_delegation_possibly_delivered s now entry org id charge db).0 ≡ true
    → signed_24h now (mark_delegation_possibly_delivered s now entry org id charge db).1
      ≤ s.a2a_treasury_daily_outflow_cap_usdc
unfolding mark_delegation_possibly_delivered
mark_delegation_possibly_delivered-within_cap s now entry org id charge db o found fresh =
    rw (found, mark_delegation_possibly_delivered)
      (answer-IfTrue (λ d. signed_24h now d ≤ s.a2a_treasury_daily_outflow_cap_usdc)
        (or_rollback db false (mark_locked s now entry org id charge o db))
        (rollback-IfTrue (λ d. signed_24h now d ≤ s.a2a_treasury_daily_outflow_cap_usdc) db
          (mark_locked s now entry org id charge o db)
          (mark_locked-cap s now entry org id charge o db found fresh)))
