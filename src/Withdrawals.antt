-- ===== src/Withdrawals.antt =====
-- How an author draws the earnings: marketplace/withdrawals.py. A withdrawal claims earnings in one
-- transaction, the transfer goes over the network outside of any, and its outcome settles the
-- withdrawal, releases the earnings, or leaves it in flight for an administrator. The error texts
-- are left out. The transfer and the check of its transaction are third-party code: arguments.
pub mod Process
pub mod Selection
pub mod Release
pub mod Steps
pub mod Closed
pub mod Once
use teardrop.Common.{
  Bool, Keyed, List, Option, [], exists, false, if◌then◌else◌, leb, lookup, ltb, max, none, not,
  select, some, true, update_where, upsert, ℕ, ◌&&◌, ◌*◌, ◌+◌, ◌-◌, ◌==◌, ◌∷◌,
}
use teardrop.Earnings.{get_author_balance, is_pending_earning}
use teardrop.Ledger.{max_bigint}
use teardrop.Schema.{
  Db, Earning, Result, Settings, Withdrawal, WithdrawalStatus, check_violation, earning_pending,
  earning_settled, err, foreign_key_violation, in_flight, ok, out_of_range, runtime_error,
  second_us, unique_violation, value_error, withdrawal_exhausted, withdrawal_failed,
  withdrawal_pending, withdrawal_settled, ◌>>=◌,
}

abbrev pub is_withdrawal_pending : WithdrawalStatus → Bool
is_withdrawal_pending withdrawal_pending = true
is_withdrawal_pending _ = false

abbrev pub is_in_flight : WithdrawalStatus → Bool
is_in_flight in_flight = true
is_in_flight _ = false

-- The states that an administrator may reset.
abbrev pub is_resettable : WithdrawalStatus → Bool
is_resettable in_flight = true
is_resettable withdrawal_failed = true
is_resettable withdrawal_exhausted = true
is_resettable _ = false

abbrev pub put_withdrawal : ℕ → Withdrawal → Db → Db
put_withdrawal id w db = record db {
  tool_author_withdrawals = upsert id w db.tool_author_withdrawals;
}

-- SELECT created_at … WHERE org_id = $1 ORDER BY created_at DESC LIMIT 1
unfoldable pub last_withdrawal : ℕ → Keyed Withdrawal → Option ℕ
last_withdrawal org [] = none
last_withdrawal org ((_, w) ∷ t) =
    let later = last_withdrawal org t in
    if w.org_id == org
    then elim later [ none ↦ some w.created_at | some c ↦ some (max w.created_at c) ]
    else later

unfoldable pub in_cooldown : Settings → ℕ → ℕ → Db → Bool
in_cooldown s now org db = elim (last_withdrawal org db.tool_author_withdrawals) [
  | none ↦ false
  | some c ↦ ltb now (c + s.marketplace_withdrawal_cooldown_seconds * second_us)
]

abbrev pub new_withdrawal : ℕ → ℕ → ℕ → ℕ → Withdrawal
new_withdrawal now org amount wallet = record {
  org_id = org;
  amount_usdc = amount;
  wallet = wallet;
  tx_hash = none;
  status = withdrawal_pending;
  created_at = now;
  settled_at = none;
  sweep_attempt_count = 0;
}

-- The INSERT with the constraints of the table.
unfoldable pub insert_withdrawal : ℕ → Withdrawal → Db → Result Db
insert_withdrawal id w db =
    if w.amount_usdc == 0
    then err check_violation
    else if ltb max_bigint w.amount_usdc
    then err out_of_range
    else elim (lookup id db.tool_author_withdrawals) [
      | some _ ↦ err unique_violation
      | none ↦ elim (lookup w.org_id db.orgs) [
        | none ↦ err foreign_key_violation
        | some _ ↦ ok (put_withdrawal id w db)
      ]
    ]

unfoldable pub request : Settings → ℕ → ℕ → ℕ → ℕ → Db → Result (Withdrawal × Db)
unfolding in_cooldown insert_withdrawal
request s now new_id org amount db =
    if not s.agent_wallet_enabled
    then err value_error
    else elim (lookup org db.tool_author_config) [
      | none ↦ err value_error
      | some wallet ↦
          if ltb amount s.marketplace_minimum_withdrawal_usdc
          then err value_error
          else if ltb (get_author_balance org db) amount
          then err value_error
          else if in_cooldown s now org db
          then err value_error
          else (insert_withdrawal new_id (new_withdrawal now org amount wallet) db >>= λ d.
              ok (new_withdrawal now org amount wallet, d))
    ]

-- … AND status = 'pending' AND withdrawal_id IS NULL
abbrev pub is_unclaimed : Earning → Bool
is_unclaimed e =
    is_pending_earning e.status && elim e.withdrawal_id [ none ↦ true | some _ ↦ false ]

-- ORDER BY created_at ASC
abbrev pub insert_by_age : Earning → List Earning → List Earning
insert_by_age e [] = e ∷ []
insert_by_age e (f ∷ t) = if leb e.created_at f.created_at then e ∷ f ∷ t else f ∷ insert_by_age e t

abbrev pub sort_by_age : List Earning → List Earning
sort_by_age [] = []
sort_by_age (e ∷ t) = insert_by_age e (sort_by_age t)

-- The loop over the rows: a share that is more than what remains is passed over.
unfoldable pub select_loop : ℕ → List Earning → List ℕ × ℕ
select_loop remaining [] = ([], 0)
select_loop remaining (e ∷ rest) =
    let passed = select_loop remaining rest in
    let (ids, total) = select_loop (remaining - e.author_share_usdc) rest in
    if remaining == 0
    then ([], 0)
    else if ltb remaining e.author_share_usdc
    then passed
    else (e.id ∷ ids, e.author_share_usdc + total)

unfoldable pub select_earnings_to_settle : ℕ → ℕ → Db → List ℕ × ℕ
unfolding select_loop
select_earnings_to_settle org amount db =
    select_loop amount
      (sort_by_age (select (λ e. e.org_id == org && is_unclaimed e) db.tool_author_earnings))

-- id = ANY(ids)
abbrev pub is_any : List ℕ → ℕ → Bool
is_any ids id = exists (λ i. i == id) ids

abbrev pub claimed_earning : ℕ → Earning → Earning
claimed_earning id e = record e { status = earning_settled; withdrawal_id = some id }

abbrev pub is_chosen : List ℕ → Earning → Bool
is_chosen ids e = is_any ids e.id && is_unclaimed e

unfoldable pub claim_earnings : ℕ → List ℕ → Db → Db
claim_earnings id ids db = record db {
  tool_author_earnings = update_where (is_chosen ids) (claimed_earning id) db.tool_author_earnings;
}

abbrev pub unfunded_row : Withdrawal → Withdrawal
unfunded_row w = record w { status = withdrawal_failed; tx_hash = none; settled_at = none }

abbrev pub in_flight_row : Withdrawal → Withdrawal
in_flight_row w = record w { status = in_flight; tx_hash = none; settled_at = none }

-- What the claim answers: the withdrawal as it is now, and the amount to transfer.
unfoldable pub claim_withdrawal : ℕ → Db → Result ((Withdrawal × ℕ) × Db)
unfolding select_earnings_to_settle claim_earnings
claim_withdrawal id db = elim (lookup id db.tool_author_withdrawals) [
  | none ↦ err value_error
  | some w ↦
      if not (is_withdrawal_pending w.status)
      then err value_error
      else (let (ids, total) = select_earnings_to_settle w.org_id w.amount_usdc db in
          if total == 0
          then ok ((unfunded_row w, 0), put_withdrawal id (unfunded_row w) db)
          else ok (
            (in_flight_row w, total),
            put_withdrawal id (in_flight_row w) (claim_earnings id ids db),
          ))
]

unfoldable pub settle_withdrawal : ℕ → ℕ → Option ℕ → Db → Result (Unit {0} × Db)
settle_withdrawal now id tx db = elim (lookup id db.tool_author_withdrawals) [
  | none ↦ err runtime_error
  | some w ↦
      if not (is_in_flight w.status)
      then err runtime_error
      else ok (
        tt,
        put_withdrawal id
            (record w { status = withdrawal_settled; tx_hash = tx; settled_at = some now }) db,
      )
]

-- UPDATE tool_author_earnings … WHERE withdrawal_id = $1 AND status = 'settled'
abbrev pub is_claimed_by : ℕ → Earning → Bool
is_claimed_by id e =
    not (is_pending_earning e.status) && elim e.withdrawal_id [ none ↦ false | some w ↦ w == id ]

abbrev pub released_earning : Earning → Earning
released_earning e = record e { status = earning_pending; withdrawal_id = none }

unfoldable pub release_earnings : ℕ → Db → Db
release_earnings id db = record db {
  tool_author_earnings = update_where (is_claimed_by id) released_earning db.tool_author_earnings;
}

unfoldable pub release_withdrawal : ℕ → Db → Result (Unit {0} × Db)
unfolding release_earnings
release_withdrawal id db = elim (lookup id db.tool_author_withdrawals) [
  | none ↦ err runtime_error
  | some w ↦
      if not (is_in_flight w.status)
      then err runtime_error
      else ok (
        tt,
        put_withdrawal id
            (record w { status = withdrawal_failed; tx_hash = none; settled_at = none })
            (release_earnings id db),
      )
]
