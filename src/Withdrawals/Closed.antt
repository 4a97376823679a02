-- ===== src/Withdrawals/Closed.antt =====
-- A withdrawal that is not pending stays so.
use teardrop.Common.{
  ==_iff, Bool-cases, Bool-clash, Option, Option-cases, false, inl, inr, lookup, lookup-upsert, ltb,
  none, not, refl, some, subst, sym, true, ℕ, ◌==◌, ◌∙◌, ◌≡◌,
}
use teardrop.Earnings.{get_author_balance}
use teardrop.Ledger.{max_bigint}
use teardrop.Schema.{
  Db, OnOk, OnOk->>=, OnOk-if, Settings, Withdrawal, check_violation, err, ok, out_of_range,
  unique_violation, withdrawal_failed, withdrawal_settled,
}
use teardrop.Withdrawals.{
  claim_earnings, claim_withdrawal, in_cooldown, in_flight_row, insert_withdrawal, is_in_flight,
  is_resettable, is_withdrawal_pending, new_withdrawal, put_withdrawal, release_earnings,
  release_withdrawal, request, select_earnings_to_settle, settle_withdrawal, unfunded_row,
}
use teardrop.Withdrawals.Process.{
  complete_withdrawal, is_other_hash, record_in_flight, reset_row, reset_withdrawal,
}
use teardrop.Withdrawals.Selection.{claim_withdrawal-Claimed}

-- The withdrawal is there and not pending.
abbrev pub IsClosed : ℕ → Db → Type 0
IsClosed id db =
    (w : Withdrawal) × (lookup id db.tool_author_withdrawals ≡ some w)
    × (is_withdrawal_pending w.status ≡ false)

put-IsClosed :
    (id j : ℕ) (w : Withdrawal) (db db' : Db)
    → IsClosed id db
    → db'.tool_author_withdrawals ≡ db.tool_author_withdrawals
    → ((j == id) ≡ true → is_withdrawal_pending w.status ≡ false)
    → IsClosed id (put_withdrawal j w db')
put-IsClosed id j w db db' (v, found, closed) same keeps = elim (Bool-cases (j == id)) [
  | inl e ↦ (w, rw (lookup-upsert j id w db'.tool_author_withdrawals, e) refl, keeps e)
  | inr e ↦ (v, rw (lookup-upsert j id w db'.tool_author_withdrawals, e, same) found, closed)
]

-- Where `w` is the row of `j`, a write that keeps its status.
same_row-pending :
    (id j : ℕ) (w : Withdrawal) (db : Db)
    → IsClosed id db
    → lookup j db.tool_author_withdrawals ≡ some w
    → (j == id) ≡ true
    → is_withdrawal_pending w.status ≡ false
same_row-pending id j w db (v, found, closed) there e =
    let it : j ≡ id = (==_iff j id).0 e in
    let there' : lookup id db.tool_author_withdrawals ≡ some w =
      subst (λ i. lookup i db.tool_author_withdrawals ≡ some w) it there in
    let same : some v ≡ some w = sym found ∙ there' in
    let same_row : v ≡ w = cc in subst (λ x. is_withdrawal_pending x.status ≡ false) same_row closed

module _ (id : ℕ) (db : Db) (still : IsClosed id db) where
  pub settle-IsClosed :
      (now j : ℕ) (tx : Option ℕ) → OnOk (λ r. IsClosed id r.1) (settle_withdrawal now j tx db)
  unfolding settle_withdrawal
  settle-IsClosed now j tx = elim (Option-cases (lookup j db.tool_author_withdrawals)) [
    | inl e ↦ rw (e, settle_withdrawal) tt
    | inr (w, e) ↦ elim (Bool-cases (is_in_flight w.status)) [
      | inr f ↦ rw (e, f, settle_withdrawal) tt
      | inl f ↦
          rw (e, f, settle_withdrawal)
            (put-IsClosed id j
              (record w { status = withdrawal_settled; tx_hash = tx; settled_at = some now }) db db
              still refl (λ _. refl))
    ]
  ]

  pub release-IsClosed : (j : ℕ) → OnOk (λ r. IsClosed id r.1) (release_withdrawal j db)
  unfolding release_withdrawal release_earnings
  release-IsClosed j = elim (Option-cases (lookup j db.tool_author_withdrawals)) [
    | inl e ↦ rw (e, release_withdrawal) tt
    | inr (w, e) ↦ elim (Bool-cases (is_in_flight w.status)) [
      | inr f ↦ rw (e, f, release_withdrawal) tt
      | inl f ↦
          rw (e, f, release_withdrawal)
            (put-IsClosed id j
              (record w { status = withdrawal_failed; tx_hash = none; settled_at = none }) db
              (release_earnings j db) still refl (λ _. refl))
    ]
  ]

  pub claim-IsClosed :
      (j : ℕ) (r : (Withdrawal × ℕ) × Db) → claim_withdrawal j db ≡ ok r → IsClosed id r.1
  unfolding claim_earnings
  claim-IsClosed j r h =
      let c = claim_withdrawal-Claimed j db r h in
      elim c.taken [
        | inl e ↦ rw e (put-IsClosed id j (unfunded_row c.row) db db still refl (λ _. refl))
        | inr e ↦ rw e (
            put-IsClosed id j (in_flight_row c.row) db
              (claim_earnings j (select_earnings_to_settle c.row.org_id c.row.amount_usdc db).0 db)
              still refl (λ _. refl))
      ]

  pub record_in_flight-IsClosed : (j : ℕ) (tx : Option ℕ) → IsClosed id (record_in_flight j tx db)
  unfolding record_in_flight
  record_in_flight-IsClosed j tx = elim (Option-cases (lookup j db.tool_author_withdrawals)) [
    | inl e ↦ rw (e, record_in_flight) still
    | inr (w, e) ↦ elim (Bool-cases (is_in_flight w.status)) [
      | inr f ↦ rw (e, f, record_in_flight) still
      | inl f ↦
          rw (e, f, record_in_flight)
            (put-IsClosed id j (record w { tx_hash = tx }) db db still refl
              (same_row-pending id j w db still e))
    ]
  ]

  pub complete-IsClosed :
      (now j tx : ℕ) → OnOk (λ r. IsClosed id r.1) (complete_withdrawal now j tx db)
  unfolding complete_withdrawal
  complete-IsClosed now j tx = elim (Option-cases (lookup j db.tool_author_withdrawals)) [
    | inl e ↦ rw (e, complete_withdrawal) tt
    | inr (w, e) ↦
        let done =
          put-IsClosed id j
            (record w { status = withdrawal_settled; tx_hash = some tx; settled_at = some now }) db
            db still refl (λ _. refl) in
        let noted =
          put-IsClosed id j (record w { tx_hash = some tx }) db db still refl
            (same_row-pending id j w db still e) in
        elim (Bool-cases (is_other_hash w.tx_hash tx)) [
          | inl f ↦ rw (e, f, complete_withdrawal) tt
          | inr f ↦ elim (Bool-cases (is_in_flight w.status)) [
            | inl g ↦ rw (e, f, g, complete_withdrawal) done
            | inr g ↦ rw (e, f, g, complete_withdrawal) noted
          ]
        ]
  ]

  pub reset-IsClosed : (j : ℕ) → (j == id) ≡ false → IsClosed id (reset_withdrawal j db).1
  unfolding reset_withdrawal release_earnings
  reset-IsClosed j apart =
      let untouched : (w : Withdrawal) → (j == id) ≡ true → is_withdrawal_pending w.status ≡ false =
        λ w e. absurd (Bool-clash e apart) in
      elim (Option-cases (lookup j db.tool_author_withdrawals)) [
        | inl e ↦ rw (e, reset_withdrawal) still
        | inr (w, e) ↦ elim (Bool-cases (is_resettable w.status)) [
          | inr f ↦ rw (e, f, reset_withdrawal) still
          | inl f ↦ elim (Bool-cases (is_in_flight w.status)) [
            | inl g ↦
                rw (e, f, g, reset_withdrawal)
                  (put-IsClosed id j (reset_row w) db (release_earnings j db) still refl
                    (untouched (reset_row w)))
            | inr g ↦
                rw (e, f, g, reset_withdrawal)
                  (put-IsClosed id j (reset_row w) db db still refl (untouched (reset_row w)))
          ]
        ]
      ]

  pub insert-IsClosed : (j : ℕ) (w : Withdrawal) → OnOk (IsClosed id) (insert_withdrawal j w db)
  unfolding insert_withdrawal
  insert-IsClosed j w = elim (Option-cases (lookup j db.tool_author_withdrawals)) [
    | inr (v, e) ↦
        rw (e, insert_withdrawal)
          (OnOk-if (IsClosed id) (w.amount_usdc == 0) (err check_violation) _ tt (
            OnOk-if (IsClosed id) (ltb max_bigint w.amount_usdc) (err out_of_range)
              (err unique_violation) tt tt))
    | inl e ↦
        let (v, found, closed) = still in
        let fresh : (j == id) ≡ true → is_withdrawal_pending w.status ≡ false = λ same. absurd (
          let it : j ≡ id = (==_iff j id).0 same in
          let gone : lookup id db.tool_author_withdrawals ≡ none =
            subst (λ i. lookup i db.tool_author_withdrawals ≡ none) it e in
          let clash : none ≡ some v = sym gone ∙ found in cc) in
        let put = put-IsClosed id j w db db still refl fresh in
        rw (e, insert_withdrawal)
          (OnOk-if (IsClosed id) (w.amount_usdc == 0) (err check_violation) _ tt (
            OnOk-if (IsClosed id) (ltb max_bigint w.amount_usdc) (err out_of_range) _ tt
              (elim (Option-cases (lookup w.org_id db.orgs)) [
                | inl o ↦ rw o tt
                | inr (x, o) ↦ rw o put
              ])))
  ]

  pub request-IsClosed :
      (s : Settings) (now new_id org amount : ℕ)
      → OnOk (λ r. IsClosed id r.1) (request s now new_id org amount db)
  unfolding request
  request-IsClosed s now new_id org amount =
      let P : Withdrawal × Db → Type 0 = λ r. IsClosed id r.1 in
      elim (Option-cases (lookup org db.tool_author_config)) [
        | inl e ↦ rw (e, request) (OnOk-if P (not s.agent_wallet_enabled) _ _ tt tt)
        | inr (wallet, e) ↦
            rw (e, request)
              (OnOk-if P (not s.agent_wallet_enabled) _ _ tt (
                OnOk-if P (ltb amount s.marketplace_minimum_withdrawal_usdc) _ _ tt (
                  OnOk-if P (ltb (get_author_balance org db) amount) _ _ tt (
                    OnOk-if P (in_cooldown s now org db) _ _ tt (
                      OnOk->>= (IsClosed id) P
                        (insert_withdrawal new_id (new_withdrawal now org amount wallet) db) _
                        (insert-IsClosed new_id (new_withdrawal now org amount wallet))
                        (λ d closed. closed))))))
      ]
