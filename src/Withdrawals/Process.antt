-- ===== src/Withdrawals/Process.antt =====
-- The whole of a withdrawal's processing, and the administrator's calls.
use teardrop.Common.{
  Bool, Option, false, if◌then◌else◌, lookup, none, not, some, true, ℕ, ◌==◌, ◌||◌,
}
use teardrop.Schema.{
  Db, Result, Settings, Withdrawal, err, in_flight, ok, runtime_error, value_error,
  withdrawal_failed, withdrawal_pending, withdrawal_settled, ◌>>=◌,
}
use teardrop.Withdrawals.{
  claim_withdrawal, is_in_flight, is_resettable, put_withdrawal, release_earnings,
  release_withdrawal, settle_withdrawal,
}

-- transfer_usdc and verify_usdc_transfer of the wallet service: `none` is an exception.
pub record Chain : Type 0 where
  pub transfer_usdc : ℕ → ℕ → Option ℕ
  pub verify_usdc_transfer : ℕ → Option Bool

pub data TransferStatus : Type 0 where
  transfer_settled transfer_failed transfer_in_flight : TransferStatus

pub record TransferResult : Type 0 where
  pub tx_hash : Option ℕ
  pub status : TransferStatus

unfoldable pub confirm_transfer : Chain → ℕ → TransferResult
confirm_transfer chain tx = elim (chain.verify_usdc_transfer tx) [
  | none ↦ record { tx_hash = some tx; status = transfer_in_flight }
  | some mined ↦
      if mined
      then record { tx_hash = some tx; status = transfer_settled }
      else record { tx_hash = some tx; status = transfer_failed }
]

unfoldable pub attempt_transfer : Settings → Chain → ℕ → ℕ → TransferResult
unfolding confirm_transfer
attempt_transfer s chain wallet total =
    if total == 0 || not s.agent_wallet_enabled
    then record { tx_hash = none; status = transfer_failed }
    else elim (chain.transfer_usdc wallet total) [
      | none ↦ record { tx_hash = none; status = transfer_in_flight }
      | some tx ↦ confirm_transfer chain tx
    ]

unfoldable pub record_in_flight : ℕ → Option ℕ → Db → Db
record_in_flight id tx db = elim (lookup id db.tool_author_withdrawals) [
  | none ↦ db
  | some w ↦ if is_in_flight w.status then put_withdrawal id (record w { tx_hash = tx }) db else db
]

-- A transaction whose exception leaves the method: the answer, and the state with what was
-- committed before.
abbrev raised {ℓ} : {A : Type ℓ} → Db → Result (A × Db) → Result A × Db
raised before (ok (a, d)) = (ok a, d)
raised before (err e) = (err e, before)

abbrev answer_with : Withdrawal → Result (Unit {0} × Db) → Result (Withdrawal × Db)
answer_with w r = r >>= λ x. ok (w, x.1)

unfoldable pub resolve_transfer : ℕ → ℕ → Withdrawal → TransferResult → Db → Result Withdrawal × Db
resolve_transfer now id w t db = elim t.status [
  | transfer_settled ↦ raised db (
      answer_with
        (record w { status = withdrawal_settled; tx_hash = t.tx_hash; settled_at = some now })
        (settle_withdrawal now id t.tx_hash db))
  | transfer_failed ↦ raised db (
      answer_with (record w { status = withdrawal_failed; tx_hash = none; settled_at = none })
        (release_withdrawal id db))
  | transfer_in_flight ↦
      (ok (record w { status = in_flight; tx_hash = t.tx_hash }), record_in_flight id t.tx_hash db)
]

-- `meanwhile` is what other sessions commit while the transfer is under way.
unfoldable pub process : Settings → Chain → (Db → Db) → ℕ → ℕ → Db → Result Withdrawal × Db
unfolding resolve_transfer attempt_transfer
process s chain meanwhile now id db =
    if not s.agent_wallet_enabled then (err runtime_error, db) else elim (claim_withdrawal id db) [
      | err e ↦ (err e, db)
      | ok ((w, total), d) ↦
          if is_in_flight w.status
          then resolve_transfer now id w (attempt_transfer s chain w.wallet total) (meanwhile d)
          else (ok w, d)
    ]

-- The hash that stands differs from the one that is given.
abbrev pub is_other_hash : Option ℕ → ℕ → Bool
is_other_hash none tx = false
is_other_hash (some t) tx = not (t == tx)

unfoldable pub complete_withdrawal : ℕ → ℕ → ℕ → Db → Result (Unit {0} × Db)
complete_withdrawal now id tx db = elim (lookup id db.tool_author_withdrawals) [
  | none ↦ err value_error
  | some w ↦
      if is_other_hash w.tx_hash tx
      then err value_error
      else if is_in_flight w.status
      then ok (
        tt,
        put_withdrawal id
            (record w { status = withdrawal_settled; tx_hash = some tx; settled_at = some now }) db,
      )
      else ok (tt, put_withdrawal id (record w { tx_hash = some tx }) db)
]

abbrev pub reset_row : Withdrawal → Withdrawal
reset_row w = record w {
  status = withdrawal_pending;
  tx_hash = none;
  settled_at = none;
  sweep_attempt_count = 0;
}

unfoldable pub reset_withdrawal : ℕ → Db → Bool × Db
reset_withdrawal id db = elim (lookup id db.tool_author_withdrawals) [
  | none ↦ (false, db)
  | some w ↦
      if not (is_resettable w.status)
      then (false, db)
      else if is_in_flight w.status
      then (true, put_withdrawal id (reset_row w) (release_earnings id db))
      else (true, put_withdrawal id (reset_row w) db)
]
