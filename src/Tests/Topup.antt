-- ===== src/Tests/Topup.antt =====
-- Top-ups and grants on the small database.
use teardrop.Common.{[], none, refl, some, true, ◌∷◌, ◌≡◌}
use teardrop.Ledger.{
  credit_row, get_credit_balance, insert_ledger, ledger_violation, put_balance, upsert_balance,
}
use teardrop.Ledger.Conservation.{posted}
use teardrop.Schema.{Db, given, ok, onboarding_grant}
use teardrop.Tests.State.{db, noon}
use teardrop.Topup.{
  admin_topup_credit, credit_topup, grant_onboarding_credit, is_promotional_credit, topup_row,
}

-- Org 2 has no account yet: the first top-up opens one.
abbrev first_topup : Db
first_topup = posted (topup_row noon 2 2 25_000 25_000 (given 1) (some 77)) 25_000 db

first_topup_runs :
    admin_topup_credit noon 2 2 25_000 (given 1) (some 77) db ≡ ok (25_000, first_topup)
unfolding admin_topup_credit credit_topup upsert_balance insert_ledger ledger_violation put_balance
    credit_row get_credit_balance
first_topup_runs = refl

abbrev granted_state : Db
granted_state = posted (topup_row noon 2 2 5_000 5_000 onboarding_grant none) 5_000 (record db {
  org_onboarding_credit_grants = (2, record { amount_usdc = 5_000; ledger_entry_id = 2 }) ∷ [];
})

grant_runs : grant_onboarding_credit noon 2 2 5_000 db ≡ ok (5_000, granted_state)
unfolding grant_onboarding_credit credit_topup upsert_balance insert_ledger ledger_violation
    put_balance credit_row get_credit_balance
grant_runs = refl

granted_is_promotional : is_promotional_credit 2 granted_state ≡ true
unfolding is_promotional_credit put_balance
granted_is_promotional = refl
