-- ===== src/Charges.antt =====
-- billing/charges.py: the ledger of charges, one row for each billed invocation, with the guard of
-- migrations/versions/115_billing_charges.sql. mark_charge_settled stands with the retries that call it
-- (Settlement). `charge_id` is uuid5 of the source and the invocation; the database is there, and an
-- exception is caught.
pub mod Guarded
use teardrop.Common.{
  Bool, Keyed, Option, [], exists, false, if◌then◌else◌, lookup, ltb, none, some, true, upsert, ℕ,
  ◌&&◌, ◌==◌, ◌||◌, ◌∷◌,
}
use teardrop.Ledger.{max_bigint}
use teardrop.Schema.{
  BillingCharge, ChargeMethod, ChargeSource, ChargeStatus, Db, by_credit, by_mpp, by_x402,
  charge_reverted, charge_settled, from_a2a, from_api, from_mcp, from_mcp_v1, from_schedule,
  from_trigger,
}
use teardrop.Settlement.{is_charge_failed}

abbrev pub source_code : ChargeSource → ℕ
source_code from_api = 0
source_code from_schedule = 1
source_code from_trigger = 2
source_code from_a2a = 3
source_code from_mcp = 4
source_code from_mcp_v1 = 5

-- uq_billing_charges_invocation
unfoldable pub invocation_taken : ChargeSource → ℕ → Db → Bool
invocation_taken source invocation db =
    exists
      (λ row. source_code row.1.source == source_code source && row.1.invocation_id == invocation)
      db.billing_charges

-- The arguments of record_charge; an empty text is none.
pub record ChargeOutcome : Type 0 where
  pub source : ChargeSource
  pub invocation_id : ℕ
  pub charge_method : ChargeMethod
  pub amount_usdc : ℕ
  pub status : ChargeStatus
  pub settled_amount_usdc : ℕ
  pub settlement_tx : Option ℕ
  pub org_id : ℕ
  pub usage_event_id : Option ℕ

abbrev pub is_charge_settled : ChargeStatus → Bool
is_charge_settled charge_settled = true
is_charge_settled _ = false

abbrev pub charge_row : ChargeOutcome → BillingCharge
charge_row o = record {
  source = o.source;
  invocation_id = o.invocation_id;
  usage_event_id = o.usage_event_id;
  org_id = o.org_id;
  charge_method = o.charge_method;
  settlement_tx = if is_charge_settled o.status then o.settlement_tx else none;
  amount_usdc = o.amount_usdc;
  settled_amount_usdc = if is_charge_settled o.status then o.settled_amount_usdc else 0;
  status = o.status;
}

abbrev pub is_row : Option BillingCharge → Bool
is_row none = false
is_row (some _) = true

-- ON CONFLICT DO NOTHING; another row with the id, or an amount that does not fit, raises
unfoldable pub inserts_nothing : ℕ → ChargeOutcome → Db → Bool
unfolding invocation_taken
inserts_nothing id o db =
    is_row (lookup id db.billing_charges)
    || invocation_taken o.source o.invocation_id db
    || ltb max_bigint o.amount_usdc
    || ltb max_bigint (charge_row o).settled_amount_usdc

unfoldable pub record_charge : (charge_id : ChargeSource → ℕ → ℕ) → ChargeOutcome → Db → ℕ × Db
unfolding inserts_nothing
record_charge charge_id o db =
    let id = charge_id o.source o.invocation_id in
    (
      id,
      if inserts_nothing id o db
          then db
          else record db { billing_charges = upsert id (charge_row o) db.billing_charges },
    )

abbrev pub is_text : Option ℕ → ℕ → Bool
is_text none n = false
is_text (some m) n = m == n

-- WHERE usage_event_id = $1 AND settlement_tx = $2 AND status = 'settled'
unfoldable pub reverted_charge : (event tx : ℕ) → BillingCharge → BillingCharge
reverted_charge event tx c =
    if is_text c.usage_event_id event && is_text c.settlement_tx tx && is_charge_settled c.status
    then record c { status = charge_reverted }
    else c

unfoldable pub revert_rows : (event tx : ℕ) → Keyed BillingCharge → Keyed BillingCharge
unfolding reverted_charge
revert_rows event tx [] = []
revert_rows event tx ((id, c) ∷ rest) = (id, reverted_charge event tx c) ∷ revert_rows event tx rest

unfoldable pub mark_charge_reverted : (event tx : Option ℕ) → Db → Db
unfolding revert_rows
mark_charge_reverted (some event) (some tx) db = record db {
  billing_charges = revert_rows event tx db.billing_charges;
}
mark_charge_reverted _ _ db = db

-- billing_charges_guard: what the trigger admits of an UPDATE

abbrev pub option_eq : Option ℕ → Option ℕ → Bool
option_eq none none = true
option_eq (some a) (some b) = a == b
option_eq _ _ = false

abbrev pub method_code : ChargeMethod → ℕ
method_code by_credit = 0
method_code by_x402 = 1
method_code by_mpp = 2

unfoldable pub same_identity : BillingCharge → BillingCharge → Bool
same_identity old new =
    source_code old.source == source_code new.source
    && old.invocation_id == new.invocation_id
    && option_eq old.usage_event_id new.usage_event_id
    && old.org_id == new.org_id
    && method_code old.charge_method == method_code new.charge_method
    && old.amount_usdc == new.amount_usdc

unfoldable pub status_may_move : BillingCharge → BillingCharge → Bool
status_may_move old new =
    (is_charge_failed old.status && is_charge_settled new.status)
    || (is_charge_settled old.status
        && elim new.status [ charge_reverted ↦ true | _ ↦ false ]
        && old.settled_amount_usdc == new.settled_amount_usdc
        && option_eq old.settlement_tx new.settlement_tx)

unfoldable pub billing_charges_guard : BillingCharge → BillingCharge → Bool
unfolding same_identity status_may_move
billing_charges_guard old new = same_identity old new && status_may_move old new
