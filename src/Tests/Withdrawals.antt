-- ===== src/Tests/Withdrawals.antt =====
-- A withdrawal of 5_000 by org 2, which has earned 3_000, 4_000 and 1_500: it takes the first, passes
-- the second over, and takes the third.
use teardrop.Common.{List, [], arith, refl, ◌∷◌, ◌≡◌, ◌≤◌}
use teardrop.Earnings.{earning_row, get_author_balance}
use teardrop.Schema.{Db, Earning, Withdrawal, err, ok, value_error, withdrawal_failed}
use teardrop.Tests.State.{db, settings}
use teardrop.Withdrawals.{
  claim_earnings, claim_withdrawal, in_cooldown, in_flight_row, insert_withdrawal, last_withdrawal,
  new_withdrawal, put_withdrawal, request, release_earnings, release_withdrawal,
  select_earnings_to_settle, select_loop,
}
use teardrop.Withdrawals.Once.{claim_withdrawal-once}
use teardrop.Withdrawals.Release.{release_withdrawal-claim_withdrawal}
use teardrop.Withdrawals.Steps.{no_withdrawal_steps, released_it, then_withdrawal_step}

abbrev earned : List Earning
earned =
    earning_row 30 3 2 4 1 2_500 1_500
    ∷ earning_row 20 2 2 4 1 6_000 4_000
    ∷ earning_row 10 1 2 4 1 4_000 3_000
    ∷ []

abbrev asked : Withdrawal
asked = new_withdrawal 100 2 5_000 66

abbrev earned_db : Db
earned_db = record db { tool_author_earnings = earned }

abbrev asked_db : Db
asked_db = put_withdrawal 51 asked earned_db

request_runs : request settings 100 51 2 5_000 earned_db ≡ ok (asked, asked_db)
unfolding request get_author_balance in_cooldown last_withdrawal insert_withdrawal
request_runs = refl

abbrev claimed_state : Db
claimed_state = put_withdrawal 51 (in_flight_row asked) (claim_earnings 51 (1 ∷ 3 ∷ []) asked_db)

claim_runs : claim_withdrawal 51 asked_db ≡ ok ((in_flight_row asked, 4_500), claimed_state)
unfolding claim_withdrawal select_earnings_to_settle select_loop
claim_runs = refl

-- The transfer fails, and the earnings are given back.
abbrev given_back : Db
given_back =
    put_withdrawal 51 (record asked { status = withdrawal_failed })
      (release_earnings 51 claimed_state)

release_runs : release_withdrawal 51 claimed_state ≡ ok (tt, given_back)
unfolding release_withdrawal claim_earnings release_earnings
release_runs = refl

claim_withdrawal-once_example : (4_500 ≤ 5_000) × (claim_withdrawal 51 given_back ≡ err value_error)
claim_withdrawal-once_example =
    claim_withdrawal-once 51 asked_db given_back ((in_flight_row asked, 4_500), claimed_state)
      claim_runs (then_withdrawal_step no_withdrawal_steps (released_it 51 release_runs))

release_withdrawal-claim_withdrawal_example :
    (after : Db) × (release_withdrawal 51 claimed_state ≡ ok (tt, after))
    × (after.tool_author_earnings ≡ earned)
release_withdrawal-claim_withdrawal_example =
    release_withdrawal-claim_withdrawal 51 asked_db ((in_flight_row asked, 4_500), claimed_state)
      (refl, (refl, (refl, tt))) claim_runs (omega arith)
