-- ===== src/Tests/Charges.antt =====
-- The ledger of charges on the small database.
use teardrop.Charges.{ChargeOutcome, charge_row, record_charge}
use teardrop.Charges.Guarded.{ChargeStep-IsGuarded, IsGuarded, settles}
use teardrop.Common.{[], lookup, refl, some, ℕ, ◌+◌, ◌∷◌, ◌≡◌}
use teardrop.Schema.{ChargeSource, Db, by_credit, charge_failed, charge_settled, from_api}
use teardrop.Settlement.{mark_charge_settled}
use teardrop.Tests.State.{db}

-- Run 9 of org 1, for 9_000, which the balance did not cover.
abbrev failed_run : ChargeOutcome
failed_run = record {
  source = from_api;
  invocation_id = 9;
  charge_method = by_credit;
  amount_usdc = 9_000;
  status = charge_failed;
  settled_amount_usdc = 9_000;
  settlement_tx = some 3;
  org_id = 1;
  usage_event_id = some 21;
}

abbrev charge_id : ChargeSource → ℕ → ℕ
charge_id source invocation = 100 + invocation

abbrev charges_db : Db
charges_db = record db { billing_charges = (109, charge_row failed_run) ∷ [] }

record_charge_runs : record_charge charge_id failed_run db ≡ (109, charges_db)
unfolding record_charge
record_charge_runs = refl

-- A second outcome of the run is dropped, and so is one whose id is taken.
record_charge_again :
    record_charge charge_id (record failed_run { status = charge_settled }) charges_db
    ≡ (109, charges_db)
unfolding record_charge
record_charge_again = refl

ChargeStep-IsGuarded_example :
    IsGuarded
      (charge_row failed_run)
      (lookup 109 (mark_charge_settled 109 9_000 charges_db).billing_charges)
ChargeStep-IsGuarded_example =
    ChargeStep-IsGuarded 109 (charge_row failed_run) charges_db
      (mark_charge_settled 109 9_000 charges_db) refl (settles 109 9_000 charges_db)
