-- ===== src/Tests/Bootstrap.antt =====
-- The settlement of a bootstrap payment on the small database.
use teardrop.Common.{List, [], arith, false, none, refl, some, ℕ, ◌+◌, ◌∷◌, ◌≡◌}
use teardrop.Ledger.{
  get_credit_balance, insert_ledger, ledger_violation, put_balance, upsert_balance,
}
use teardrop.Ledger.Conservation.{posted}
use teardrop.Schema.{Db, ok, x402_onboarding}
use teardrop.Tests.State.{db, noon}
use teardrop.Topup.{credit_topup, referenced, topup_row}
use teardrop.Topup.Bootstrap.{
  Credential, Draw, Onboarding, Payment, SettlementEvent, create_client_credential, credential_for,
  record_onboarding_settlement, settle_new, settlement_event,
}
use teardrop.Topup.Bootstrap.Retry.{record_onboarding_settlement_idem}

-- A bootstrap payment of org 1, recorded twice.
abbrev fresh_org : Onboarding
fresh_org = record { db = db; credentials = []; events = [] }

abbrev draw : ℕ → Draw
draw n = record { now = noon; entry_id = n; event_id = n; client = n; secret = n }

abbrev payment : Payment
payment = record { org = 1; amount = 5_000; ref = 900; payer = 3; chain = 8453; tx = 4 }

abbrev first_credential_made : Credential
first_credential_made = record {
  client_id = 60;
  org_id = 1;
  created_at = noon;
  is_disabled = false;
}

abbrev onboarding : Db → List Credential → List SettlementEvent → Onboarding
onboarding d cs es = record { db = d; credentials = cs; events = es }

abbrev after_payment : Onboarding
after_payment =
    onboarding (posted (topup_row noon 60 1 5_000 55_000 x402_onboarding (some 900)) 55_000 db)
      (first_credential_made ∷ []) (settlement_event (draw 60) payment ∷ [])

payment_recorded :
    record_onboarding_settlement (draw 60) payment fresh_org
    ≡ ok ((first_credential_made, some 60), after_payment)
unfolding record_onboarding_settlement referenced settle_new credential_for create_client_credential
    credit_topup upsert_balance insert_ledger ledger_violation put_balance get_credit_balance
payment_recorded = refl

record_onboarding_settlement_idem_example :
    (get_credit_balance 1 after_payment.db ≡ get_credit_balance 1 db + 5_000)
    × (record_onboarding_settlement (draw 61) payment after_payment
        ≡ ok ((first_credential_made, none), after_payment))
unfolding referenced
record_onboarding_settlement_idem_example =
    record_onboarding_settlement_idem (draw 60) (draw 61) payment payment fresh_org after_payment
      first_credential_made (some 60) refl payment_recorded refl refl refl (omega arith)
