-- ===== src/Withdrawals/Steps.antt =====
-- What the program does to the withdrawals, with what other calls do in between.
use teardrop.Common.{Option, false, ℕ, ◌==◌, ◌≡◌}
use teardrop.Schema.{Db, Settings, Withdrawal, ok}
use teardrop.Withdrawals.{claim_withdrawal, release_withdrawal, request, settle_withdrawal}
use teardrop.Withdrawals.Process.{complete_withdrawal, record_in_flight, reset_withdrawal}

-- What the program does to the withdrawals, and to anything else, short of putting `id` back to
-- pending: the administrator's reset of it, or the sweep's retry of it.
pub data WithdrawalStep (id : ℕ) : Db → Db → Type 0 where
  requested :
      (s : Settings) (now new_id org amount : ℕ) {db : Db} {r : Withdrawal × Db}
      → request s now new_id org amount db ≡ ok r
      → WithdrawalStep id db r.1
  claimed :
      (j : ℕ) {db : Db} {r : (Withdrawal × ℕ) × Db}
      → claim_withdrawal j db ≡ ok r
      → WithdrawalStep id db r.1
  settled_it :
      (now j : ℕ) (tx : Option ℕ) {db : Db} {r : Unit {0} × Db}
      → settle_withdrawal now j tx db ≡ ok r
      → WithdrawalStep id db r.1
  released_it :
      (j : ℕ) {db : Db} {r : Unit {0} × Db}
      → release_withdrawal j db ≡ ok r
      → WithdrawalStep id db r.1
  recorded_in_flight :
      (j : ℕ) (tx : Option ℕ) {db : Db} → WithdrawalStep id db (record_in_flight j tx db)
  completed_it :
      (now j tx : ℕ) {db : Db} {r : Unit {0} × Db}
      → complete_withdrawal now j tx db ≡ ok r
      → WithdrawalStep id db r.1
  reset_other :
      (j : ℕ) {db : Db} → (j == id) ≡ false → WithdrawalStep id db (reset_withdrawal j db).1
  elsewhere :
      {db db' : Db}
      → db'.tool_author_withdrawals ≡ db.tool_author_withdrawals
      → WithdrawalStep id db db'

pub data WithdrawalSteps (id : ℕ) : Db → Db → Type 0 where
  no_withdrawal_steps : {db : Db} → WithdrawalSteps id db db
  then_withdrawal_step :
      {db e f : Db} → WithdrawalSteps id db e → WithdrawalStep id e f → WithdrawalSteps id db f
