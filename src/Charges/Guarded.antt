-- ===== src/Charges/Guarded.antt =====
-- What the program does to the ledger of charges, and that the trigger admits it.
use teardrop.Charges.{
  ChargeOutcome, billing_charges_guard, charge_row, inserts_nothing, is_charge_settled, is_text,
  mark_charge_reverted, method_code, option_eq, record_charge, revert_rows, reverted_charge,
  same_identity, source_code, status_may_move,
}
use teardrop.Common.{
  ==_refl, Bool-cases, Keyed, Option, Option-cases, [], ap, arith, false, inl, inr, lookup,
  lookup-upsert, none, refl, some, true, upsert, ℕ, ◌&&◌, ◌==◌, ◌∷◌, ◌≡◌, ◌⊎◌,
}
use teardrop.Schema.{BillingCharge, ChargeSource, ChargeStatus, Db, charge_reverted, charge_settled}
use teardrop.Settlement.{is_charge_failed, mark_charge_settled}

-- The statements that write the table.
pub data ChargeStep : Db → Db → Type 0 where
  charges :
      (charge_id : ChargeSource → ℕ → ℕ) (o : ChargeOutcome) (db : Db)
      → ChargeStep db (record_charge charge_id o db).1
  settles : (id amount : ℕ) (db : Db) → ChargeStep db (mark_charge_settled id amount db)
  reverts : (event tx : Option ℕ) (db : Db) → ChargeStep db (mark_charge_reverted event tx db)

option_eq_refl : (o : Option ℕ) → option_eq o o ≡ true
option_eq_refl none = refl
option_eq_refl (some n) = ==_refl n

same_identity_refl :
    (c : BillingCharge) (settled_amount : ℕ) (tx : Option ℕ) (status : ChargeStatus)
    → same_identity c
        (record c { settled_amount_usdc = settled_amount; settlement_tx = tx; status = status })
      ≡ true
unfolding same_identity
same_identity_refl c settled_amount tx status =
    rw
      (
        ==_refl (source_code c.source),
        ==_refl c.invocation_id,
        option_eq_refl c.usage_event_id,
        ==_refl c.org_id,
        ==_refl (method_code c.charge_method),
        ==_refl c.amount_usdc,
      )
      refl

-- The row stays, or it is changed as the trigger admits.
abbrev pub IsGuarded : BillingCharge → Option BillingCharge → Type 0
IsGuarded c row =
    (row ≡ some c) ⊎ ((c' : BillingCharge) × (row ≡ some c') × (billing_charges_guard c c' ≡ true))

guard_reverts :
    (c : BillingCharge)
    → is_charge_settled c.status ≡ true
    → billing_charges_guard c (record c { status = charge_reverted }) ≡ true
unfolding billing_charges_guard status_may_move
guard_reverts c settled_c =
    rw
      (
        same_identity_refl c c.settled_amount_usdc c.settlement_tx charge_reverted,
        settled_c,
        ==_refl c.settled_amount_usdc,
        option_eq_refl c.settlement_tx,
      )
      (elim (Bool-cases (is_charge_failed c.status)) [ inl e ↦ rw e refl | inr e ↦ rw e refl ])

guard_settles :
    (c : BillingCharge) (amount : ℕ)
    → is_charge_failed c.status ≡ true
    → billing_charges_guard c (record c { settled_amount_usdc = amount; status = charge_settled })
      ≡ true
unfolding billing_charges_guard status_may_move
guard_settles c amount failed_c =
    rw (same_identity_refl c amount c.settlement_tx charge_settled, failed_c) refl

reverted_charge-IsGuarded :
    (event tx : ℕ) (c : BillingCharge) → IsGuarded c (some (reverted_charge event tx c))
unfolding reverted_charge
reverted_charge-IsGuarded event tx c =
    elim (Bool-cases (
      is_text c.usage_event_id event && is_text c.settlement_tx tx && is_charge_settled c.status)) [
        | inr e ↦ rw e (inl refl)
        | inl e ↦
            let settled_c : is_charge_settled c.status ≡ true = ground (arith, e) in
            rw e (inr (record c { status = charge_reverted }, refl, guard_reverts c settled_c))
      ]

revert_rows-lookup :
    (event tx id : ℕ) (t : Keyed BillingCharge) (c : BillingCharge)
    → lookup id t ≡ some c
    → lookup id (revert_rows event tx t) ≡ some (reverted_charge event tx c)
unfolding revert_rows
revert_rows-lookup event tx id [] c found = cc
revert_rows-lookup event tx id ((j, b) ∷ t) c found = elim (Bool-cases (j == id)) [
  | inl e ↦
      let it : some b ≡ some c = rw e at found in
      let it_is : b ≡ c = cc in rw e (ap (λ x. some (reverted_charge event tx x)) it_is)
  | inr e ↦ rw e (revert_rows-lookup event tx id t c (rw e at found))
]

settled_row-IsGuarded :
    (id amount j : ℕ) (t : Keyed BillingCharge) (b c : BillingCharge)
    → lookup id t ≡ some c
    → lookup j t ≡ some b
    → is_charge_failed b.status ≡ true
    → IsGuarded c (
        lookup id (upsert j (record b { settled_amount_usdc = amount; status = charge_settled }) t))
settled_row-IsGuarded id amount j t b c found there failed_b = elim (Bool-cases (j == id)) [
  | inl e ↦
      let j=id : j ≡ id = grind (arith, e) in
      let same : some c ≡ some b = cc in
      let c=b : c ≡ b = cc in
      let failed_c : is_charge_failed c.status ≡ true = rw c=b failed_b in
      rw
        (
          lookup-upsert j id (record b { settled_amount_usdc = amount; status = charge_settled }) t,
          e,
        )
        (inr (
          record b { settled_amount_usdc = amount; status = charge_settled },
          refl,
          rw c=b (guard_settles b amount failed_b),
        ))
  | inr e ↦
      rw
        (
          lookup-upsert j id (record b { settled_amount_usdc = amount; status = charge_settled }) t,
          e,
        )
        (inl found)
]

mark_charge_settled-none :
    (j amount : ℕ) (db : Db)
    → lookup j db.billing_charges ≡ none
    → mark_charge_settled j amount db ≡ db
unfolding mark_charge_settled
mark_charge_settled-none j amount db e = cc

mark_charge_settled-kept :
    (j amount : ℕ) (db : Db) (b : BillingCharge)
    → lookup j db.billing_charges ≡ some b
    → is_charge_failed b.status ≡ false
    → mark_charge_settled j amount db ≡ db
unfolding mark_charge_settled
mark_charge_settled-kept j amount db b there e = cc

mark_charge_settled-upsert :
    (j amount : ℕ) (db : Db) (b : BillingCharge)
    → lookup j db.billing_charges ≡ some b
    → is_charge_failed b.status ≡ true
    → mark_charge_settled j amount db ≡ (record db {
      billing_charges =
          upsert j
            (record b { settled_amount_usdc = amount; status = charge_settled })
            db.billing_charges;
    })
unfolding mark_charge_settled
mark_charge_settled-upsert j amount db b there e = cc

mark_charge_settled-IsGuarded :
    (id amount j : ℕ) (db : Db) (c : BillingCharge)
    → lookup id db.billing_charges ≡ some c
    → IsGuarded c (lookup id (mark_charge_settled j amount db).billing_charges)
mark_charge_settled-IsGuarded id amount j db c found =
    elim (Option-cases (lookup j db.billing_charges)) [
      | inl e ↦ rw (mark_charge_settled-none j amount db e) (inl found)
      | inr (b, there) ↦ elim (Bool-cases (is_charge_failed b.status)) [
        | inr e ↦ rw (mark_charge_settled-kept j amount db b there e) (inl found)
        | inl e ↦
            rw (mark_charge_settled-upsert j amount db b there e)
              (settled_row-IsGuarded id amount j db.billing_charges b c found there e)
      ]
    ]

inserts_nothing_on :
    (id : ℕ) (o : ChargeOutcome) (db : Db) (c : BillingCharge)
    → lookup id db.billing_charges ≡ some c
    → inserts_nothing id o db ≡ true
unfolding inserts_nothing
inserts_nothing_on id o db c found = rw found refl

record_charge-lookup :
    (charge_id : ChargeSource → ℕ → ℕ) (o : ChargeOutcome) (id : ℕ) (db : Db) (c : BillingCharge)
    → lookup id db.billing_charges ≡ some c
    → lookup id (record_charge charge_id o db).1.billing_charges ≡ some c
unfolding record_charge
record_charge-lookup charge_id o id db c found =
    let new = charge_id o.source o.invocation_id in
    elim (Bool-cases (new == id)) [
      | inl e ↦
          let new=id : new ≡ id = grind (arith, e) in
          rw (inserts_nothing_on new o db c (rw new=id found)) found
      | inr e ↦ elim (Bool-cases (inserts_nothing new o db)) [
        | inl nothing ↦ rw nothing found
        | inr inserts ↦
            rw (inserts, lookup-upsert new id (charge_row o) db.billing_charges, e) found
      ]
    ]

-- A statement of the program leaves a charge as it is, or changes it as the trigger admits.
pub ChargeStep-IsGuarded :
    (id : ℕ) (c : BillingCharge) (db db' : Db)
    → lookup id db.billing_charges ≡ some c
    → ChargeStep db db'
    → IsGuarded c (lookup id db'.billing_charges)
unfolding mark_charge_reverted
ChargeStep-IsGuarded id c db _ found (charges charge_id o _) =
    inl (record_charge-lookup charge_id o id db c found)
ChargeStep-IsGuarded id c db _ found (settles j amount _) =
    mark_charge_settled-IsGuarded id amount j db c found
ChargeStep-IsGuarded id c db _ found (reverts (some event) (some tx) _) =
    rw (revert_rows-lookup event tx id db.billing_charges c found)
      (reverted_charge-IsGuarded event tx c)
ChargeStep-IsGuarded id c db _ found (reverts (some event) none _) = inl found
ChargeStep-IsGuarded id c db _ found (reverts none tx _) = inl found
