-- ===== src/Topup/Bootstrap/Retry.antt =====
-- A bootstrap payment is credited once, however often its settlement is recorded.
use teardrop.Common.{
  ==_refl, Bool-cases, Option, Option-cases, ap, arith, exists, false, inl, inr, none, not, refl,
  some, sym, ℕ, ◌+◌, ◌==◌, ◌||◌, ◌∙◌, ◌∷◌, ◌≡◌, ◌≢◌,
}
use teardrop.Ledger.{get_credit_balance, put_balance}
use teardrop.Ledger.Conservation.{get_credit_balance-posted, posted}
use teardrop.Schema.{>>=-eq-ok, Db, LedgerRow, ok, x402_onboarding}
use teardrop.Topup.{credit_topup, referenced, topup_row}
use teardrop.Topup.Bootstrap.{
  Credential, Draw, Onboarding, Payment, create_client_credential, credential_for, first_credential,
  record_onboarding_settlement, settle_new, settlement_event,
}
use teardrop.Topup.Laws.{credit_topup-posted}

-- What credential_for leaves: an active credential, that a later look finds first, and the tables of
-- the credit as they were.
credential_for-finds :
    (draw : Draw) (org : ℕ) (s s' : Onboarding) (c : Credential) (secret : Option ℕ)
    → credential_for draw org s ≡ ok ((c, secret), s')
    → (first_credential org s'.credentials ≡ some c) × (s'.db ≡ s.db)
unfolding credential_for create_client_credential
credential_for-finds draw org s s' c secret h =
    elim (Option-cases (first_credential org s.credentials)) [
      | inr (d, found) ↦
          let same = rw (found, credential_for) at h in
          let is_c : d ≡ c = cc in
          let is_s : s ≡ s' = cc in rw (sym is_s) (found ∙ ap some is_c, refl)
      | inl missing ↦ elim (Bool-cases (exists (λ d. d.client_id == draw.client) s.credentials)) [
        | inl clash ↦ cc (rw (missing, clash, credential_for, create_client_credential) at h)
        | inr fresh ↦
            let made : Credential = record {
              client_id = draw.client;
              org_id = org;
              created_at = draw.now;
              is_disabled = false;
            } in
            let same = rw (missing, fresh, credential_for, create_client_credential) at h in
            let is_c : made ≡ c = cc in
            let is_s : record s { credentials = made ∷ s.credentials } ≡ s' = cc in
            let own = ==_refl org in rw (sym is_s) (rw (own, missing) (ap some is_c), refl)
      ]
    ]

settle_new-settled :
    (draw : Draw) (p : Payment) (s s' : Onboarding) (c : Credential) (secret : Option ℕ)
    → settle_new draw p s ≡ ok ((c, secret), s')
    → (n : ℕ) × (first_credential p.org s'.credentials ≡ some c)
      × (s'.db
          ≡ posted
              (topup_row draw.now draw.entry_id p.org p.amount n x402_onboarding (some p.ref))
              n
              s.db)
      × (n ≡ get_credit_balance p.org s.db + p.amount)
unfolding settle_new
settle_new-settled draw p s s' c secret h =
    let ((d, s1), found, rest) = >>=-eq-ok (credential_for draw p.org s) _ h in
    let ((n, db'), credited, last) =
      >>=-eq-ok
        (credit_topup draw.now draw.entry_id p.org p.amount x402_onboarding (some p.ref) s1.db) _
        rest in
    let is_d : d ≡ (c, secret) = cc last in
    let is_c : d.0 ≡ c = ap (λ e. e.0) is_d in
    let is_s : record s1 { db = db'; events = settlement_event draw p ∷ s1.events } ≡ s' =
      cc last in
    let (first, kept) = credential_for-finds draw p.org s s1 d.0 d.1 found in
    let (written, sum_eq, _) =
      credit_topup-posted draw.now draw.entry_id p.org p.amount x402_onboarding (some p.ref) s1.db
        credited in
    rw (sym is_s) (n, first ∙ ap some is_c, rw kept at written, rw kept at sum_eq)

referenced-posted :
    (row : LedgerRow) (ref n : ℕ) (db : Db)
    → row.external_ref ≡ some ref
    → referenced ref (posted row n db) ≡ some row
unfolding referenced put_balance
referenced-posted row ref n db is_ref = let own = ==_refl ref in rw (is_ref, own) refl

-- A payment that was recorded, recorded again with the same reference, org and amount.
again :
    (draw draw' : Draw) (p p' : Payment) (s' : Onboarding) (c : Credential) (n : ℕ) (db : Db)
    → p'.org ≡ p.org
    → p'.amount ≡ p.amount
    → p'.ref ≡ p.ref
    → (p'.amount == 0 || (p'.ref == 0 || p'.tx == 0)) ≡ false
    → first_credential p.org s'.credentials ≡ some c
    → s'.db
      ≡ posted (topup_row draw.now draw.entry_id p.org p.amount n x402_onboarding (some p.ref)) n db
    → record_onboarding_settlement draw' p' s' ≡ ok ((c, none), s')
unfolding record_onboarding_settlement credential_for referenced
again draw draw' p p' s' c n db same_org same_amount same_ref complete first is_db =
    let row = topup_row draw.now draw.entry_id p.org p.amount n x402_onboarding (some p.ref) in
    let stands : referenced p.ref (posted row n db) ≡ some row =
      referenced-posted row p.ref n db refl in
    let found : referenced p'.ref s'.db ≡ some row = rw (same_ref, is_db) stands in
    let agrees : (not (p.org == p'.org) || not (p.amount == p'.amount)) ≡ false =
      ground (arith, same_org, same_amount) in
    let first' : first_credential p'.org s'.credentials ≡ some c = rw same_org first in
    rw (complete, found, agrees, record_onboarding_settlement, first', credential_for) refl

-- The first record of a payment whose reference is new credits its org with the amount; recorded
-- again, by a payment with the same reference, org and amount, at any time and with any new ids, it
-- answers the same credential, with no secret, and changes nothing.
pub record_onboarding_settlement_idem :
    (draw draw' : Draw) (p p' : Payment) (s s' : Onboarding) (c : Credential) (secret : Option ℕ)
    → referenced p.ref s.db ≡ none
    → record_onboarding_settlement draw p s ≡ ok ((c, secret), s')
    → p'.org ≡ p.org
    → p'.amount ≡ p.amount
    → p'.ref ≡ p.ref
    → p'.tx ≢ 0
    → (get_credit_balance p.org s'.db ≡ get_credit_balance p.org s.db + p.amount)
      × (record_onboarding_settlement draw' p' s' ≡ ok ((c, none), s'))
unfolding record_onboarding_settlement
record_onboarding_settlement_idem draw draw' p p' s s' c secret unused h same_org same_amount
      same_ref sent =
    elim (Bool-cases (p.amount == 0 || (p.ref == 0 || p.tx == 0))) [
      | inl lacking ↦ cc (rw (lacking, record_onboarding_settlement) at h)
      | inr complete ↦
          let outcome = rw (complete, unused, record_onboarding_settlement) at h in
          let (n, first, is_db, sum_eq) = settle_new-settled draw p s s' c secret outcome in
          let row =
            topup_row draw.now draw.entry_id p.org p.amount n x402_onboarding (some p.ref) in
          let balance = get_credit_balance-posted row n p.org s.db in
          let own = ==_refl p.org in
          (
            rw is_db (ground (arith, balance, own, sum_eq)),
            again draw draw' p p' s' c n s.db same_org same_amount same_ref
                (ground (arith, complete, sent)) first is_db,
          )
    ]
