-- ===== src/Topup/Bootstrap.antt =====
-- record_onboarding_settlement of billing/credit.py: a settled bootstrap payment with its credential
-- and its audit row, in one transaction. The empty text is 0, and a secret is a number, of which the
-- row keeps nothing but the hash that a third-party function makes.
pub mod Retry
use teardrop.Common.{
  Bool, List, Option, [], exists, false, if◌then◌else◌, leb, none, not, some, ℕ, ◌&&◌, ◌==◌, ◌||◌,
  ◌∷◌,
}
use teardrop.Schema.{Db, Result, err, ok, unique_violation, value_error, x402_onboarding, ◌>>=◌}
use teardrop.Topup.{credit_topup, referenced}

-- A row of org_client_credentials.
pub record Credential : Type 0 where
  pub client_id : ℕ
  pub org_id : ℕ
  pub created_at : ℕ
  pub is_disabled : Bool

-- A row of org_provisioning_events, of type 'settlement' and method 'x402'.
pub record SettlementEvent : Type 0 where
  pub id : ℕ
  pub org_id : ℕ
  pub payer_address : ℕ
  pub chain_id : ℕ
  pub settlement_tx : ℕ
  pub payment_ref : ℕ
  pub amount_usdc : ℕ

pub record Onboarding : Type 0 where
  pub db : Db
  pub credentials : List Credential
  pub events : List SettlementEvent

-- The ids that a call draws, and the time.
pub record Draw : Type 0 where
  pub now : ℕ
  pub entry_id : ℕ
  pub event_id : ℕ
  pub client : ℕ
  pub secret : ℕ

pub record Payment : Type 0 where
  pub org : ℕ
  pub amount : ℕ
  pub ref : ℕ
  pub payer : ℕ
  pub chain : ℕ
  pub tx : ℕ

-- WHERE org_id = … AND disabled_at IS NULL ORDER BY created_at ASC LIMIT 1
abbrev pub first_credential : ℕ → List Credential → Option Credential
first_credential org [] = none
first_credential org (c ∷ cs) =
    let rest = first_credential org cs in
    let earliest : Option Credential = elim rest [
      | none ↦ some c
      | some d ↦ if leb c.created_at d.created_at then some c else some d
    ] in
    if c.org_id == org && not c.is_disabled then earliest else rest

-- create_client_credential_in_transaction
unfoldable pub create_client_credential :
    Draw → ℕ → Onboarding → Result ((Credential × Option ℕ) × Onboarding)
create_client_credential draw org s =
    let c : Credential = record {
      client_id = draw.client;
      org_id = org;
      created_at = draw.now;
      is_disabled = false;
    } in
    if exists (λ d. d.client_id == draw.client) s.credentials
    then err unique_violation
    else ok ((c, some draw.secret), record s { credentials = c ∷ s.credentials })

-- The first active credential, without its secret, or a new one.
unfoldable pub credential_for :
    Draw → ℕ → Onboarding → Result ((Credential × Option ℕ) × Onboarding)
unfolding create_client_credential
credential_for draw org s = elim (first_credential org s.credentials) [
  | some c ↦ ok ((c, none), s)
  | none ↦ create_client_credential draw org s
]

abbrev pub settlement_event : Draw → Payment → SettlementEvent
settlement_event draw p = record {
  id = draw.event_id;
  org_id = p.org;
  payer_address = p.payer;
  chain_id = p.chain;
  settlement_tx = p.tx;
  payment_ref = p.ref;
  amount_usdc = p.amount;
}

-- A payment whose reference is new: credential, credit and audit row.
unfoldable pub settle_new :
    Draw → Payment → Onboarding → Result ((Credential × Option ℕ) × Onboarding)
unfolding credential_for
settle_new draw p s = do
  (credential, s1) ← credential_for draw p.org s
  (_, db') ← credit_topup draw.now draw.entry_id p.org p.amount x402_onboarding (some p.ref) s1.db
  let s2 : Onboarding = record s1 { db = db'; events = settlement_event draw p ∷ s1.events }
  ok (credential, s2)

unfoldable pub record_onboarding_settlement :
    Draw → Payment → Onboarding → Result ((Credential × Option ℕ) × Onboarding)
unfolding settle_new credential_for
record_onboarding_settlement draw p s =
    if p.amount == 0 || (p.ref == 0 || p.tx == 0)
    then err value_error
    else elim (referenced p.ref s.db) [
      | none ↦ settle_new draw p s
      | some r ↦
          if not (r.org_id == p.org) || not (r.amount_usdc == p.amount)
          then err value_error
          else credential_for draw p.org s
    ]
