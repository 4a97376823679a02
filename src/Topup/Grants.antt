-- ===== src/Topup/Grants.antt =====
-- The onboarding grant: at most one per org, whatever is retried.
use teardrop.Common.{
  Option-cases, ap, arith, false, inl, inr, lookup, lookup-upsert, none, refl, some, upsert, ℕ, ◌+◌,
  ◌<◌, ◌==◌, ◌∙◌, ◌≡◌, ◌≢◌, ◌⊎◌,
}
use teardrop.Ledger.{get_credit_balance, put_balance}
use teardrop.Ledger.Conservation.{IsConsistent, posted, posted-IsConsistent}
use teardrop.Schema.{>>=-eq-ok, Db, Grant, LedgerRow, ok, onboarding_grant}
use teardrop.Topup.{credit_topup, grant_onboarding_credit, topup_row}
use teardrop.Topup.Laws.{credit_topup-posted}

abbrev marked : ℕ → ℕ → ℕ → Db → Db
marked new_id org amount db = record db {
  org_onboarding_credit_grants =
      upsert org (record { amount_usdc = amount; ledger_entry_id = new_id })
        db.org_onboarding_credit_grants;
}

IsConsistent-marked :
    (new_id org amount k : ℕ) (db : Db)
    → IsConsistent k db
    → IsConsistent k (marked new_id org amount db)
unfolding get_credit_balance
IsConsistent-marked new_id org amount k db h = record {
  conserved = h.conserved;
  audited = h.audited;
}

grants-posted :
    (r : LedgerRow) (n : ℕ) (db : Db)
    → (posted r n db).org_onboarding_credit_grants ≡ db.org_onboarding_credit_grants
unfolding put_balance
grants-posted r n db = refl

-- What a grant that returns has done: nothing, since there was a marker, or one posting.
pub record Granted (now new_id org amount : ℕ) (db : Db) (r : ℕ × Db) : Type 0 where
  pub new_balance : ℕ
  pub unmarked : lookup org db.org_onboarding_credit_grants ≡ none
  pub answer : r.0 ≡ amount
  pub positive : 0 < amount
  pub sum_eq : new_balance ≡ get_credit_balance org db + amount
  pub written :
      r.1
      ≡ posted
          (topup_row now new_id org amount new_balance onboarding_grant none)
          new_balance
          (marked new_id org amount db)

get_credit_balance-marked :
    (new_id org amount : ℕ) (db : Db)
    → get_credit_balance org (marked new_id org amount db) ≡ get_credit_balance org db
unfolding get_credit_balance
get_credit_balance-marked new_id org amount db = refl

module _ (now new_id org amount : ℕ) (db : Db) where
  grant_new :
      {r : ℕ × Db}
      → amount ≢ 0
      → lookup org db.org_onboarding_credit_grants ≡ none
      → grant_onboarding_credit now new_id org amount db ≡ ok r
      → Granted now new_id org amount db r
  unfolding grant_onboarding_credit
  grant_new {r} nonzero unmarked h =
      let not_zero : (amount == 0) ≡ false = ground arith in
      let body = rw (not_zero, unmarked, grant_onboarding_credit) at h in
      let (t, made, same) =
        >>=-eq-ok
          (credit_topup now new_id org amount onboarding_grant none (marked new_id org amount db)) _
          body in
      let (written, sum_eq, pos) =
        credit_topup-posted now new_id org amount onboarding_grant none
          (marked new_id org amount db) made in
      record {
        new_balance = t.0;
        unmarked = unmarked;
        answer = cc same;
        positive = pos;
        sum_eq = sum_eq ∙ ap (λ b. b + amount) (get_credit_balance-marked new_id org amount db);
        written = let e : r.1 ≡ t.1 = cc same in e ∙ written;
      }

  pub grant_cases :
      {r : ℕ × Db}
      → grant_onboarding_credit now new_id org amount db ≡ ok r
      → ((g : Grant) × (lookup org db.org_onboarding_credit_grants ≡ some g) × (r ≡ (0, db)))
        ⊎ Granted now new_id org amount db r
  unfolding grant_onboarding_credit
  grant_cases {r} h = elim (Option-cases (lookup org db.org_onboarding_credit_grants)) [
    | inl unmarked ↦ inr (grant_new (ground arith) unmarked h)
    | inr (g, found) ↦ inl (g, found, ground arith)
  ]

  pub grant-IsConsistent :
      {r : ℕ × Db} (k : ℕ)
      → grant_onboarding_credit now new_id org amount db ≡ ok r
      → IsConsistent k db
      → IsConsistent k r.1
  grant-IsConsistent k h v = elim (grant_cases h) [
    | inl (_, _, same) ↦ rw same v
    | inr g ↦ rw (Granted.written g) (
        posted-IsConsistent
          (topup_row now new_id org amount (Granted.new_balance g) onboarding_grant none)
          (Granted.new_balance g) k (marked new_id org amount db) refl
          (rw (get_credit_balance-marked new_id org amount db) (Granted.sum_eq g))
          (IsConsistent-marked new_id org amount k db v))
  ]

grant_marks :
    (now new_id org amount : ℕ) (db : Db) {r : ℕ × Db}
    → grant_onboarding_credit now new_id org amount db ≡ ok r
    → (g : Grant) × (lookup org r.1.org_onboarding_credit_grants ≡ some g)
grant_marks now new_id org amount db {r} h = elim (grant_cases now new_id org amount db h) [
  | inl (g, found, same) ↦ (g, rw same found)
  | inr granted ↦
      let n = Granted.new_balance granted in
      let row = topup_row now new_id org amount n onboarding_grant none in
      let marker : Grant = record { amount_usdc = amount; ledger_entry_id = new_id } in
      (
        marker,
        rw (Granted.written granted, grants-posted row n (marked new_id org amount db))
            (ground (arith, lookup-upsert org org marker db.org_onboarding_credit_grants)),
      )
]

-- A grant that returned, tried again with any id, time and positive amount, grants 0 and changes
-- nothing.
pub grant_onboarding_credit-once :
    (now id now' id' org amount amount' : ℕ) (db : Db) {r : ℕ × Db}
    → grant_onboarding_credit now id org amount db ≡ ok r
    → 0 < amount'
    → grant_onboarding_credit now' id' org amount' r.1 ≡ ok (0, r.1)
unfolding grant_onboarding_credit
grant_onboarding_credit-once now id now' id' org amount amount' db h pos =
    let (g, found) = grant_marks now id org amount db h in ground (arith, found)
