-- ===== src/Settlement/Retry.antt =====
-- process_pending_settlements of billing/settlement.py, and the calls that re-arm a settlement.
use teardrop.Common.{
  Bool, Keyed, Option, [], false, if◌then◌else◌, leb, lookup, min, none, not, select, some, take,
  true, ℕ, ◌&&◌, ◌*◌, ◌+◌, ◌^◌, ◌||◌, ◌∷◌,
}
use teardrop.Schema.{
  BillingMethod, Db, Failure, PendingSettlement, Result, Settings, claim_lost, credit_method, err,
  exhausted, minute_us, ok, retrying, second_us, waiting, x402_method,
}
use teardrop.Settlement.{
  is_exhausted, is_retrying, is_waiting, put_settlement, settle_claimed_credit, update_claimed,
}

-- min(2 ** retry_count, 300)
abbrev pub backoff_seconds : ℕ → ℕ
backoff_seconds retry_count = min (2 ^ retry_count) 300

abbrev pub exhausted_row : ℕ → PendingSettlement → PendingSettlement
exhausted_row retry_count p = record p { status = exhausted; retry_count = retry_count }

abbrev pub delayed_row : ℕ → ℕ → PendingSettlement → PendingSettlement
delayed_row now retry_count p = record p {
  status = retrying;
  retry_count = retry_count;
  next_retry_at = now + backoff_seconds retry_count * second_us;
}

-- The two updates after an attempt that failed.
unfoldable pub retry_later : ℕ → ℕ → PendingSettlement → ℕ → Db → Db
retry_later now id row retry_count db =
    if leb row.max_retries retry_count
    then update_claimed id row.next_retry_at (exhausted_row retry_count) db
    else update_claimed id row.next_retry_at (delayed_row now retry_count) db

abbrev pub is_claim_lost : Failure → Bool
is_claim_lost claim_lost = true
is_claim_lost _ = false

-- What the answer of the credit retry leads to.
unfoldable pub after_attempt :
    ℕ → ℕ → PendingSettlement → ℕ → Result ((Bool × ℕ) × Db) → Db → Bool × Db
after_attempt now id row retry_count (ok ((true, _), db')) db = (true, db')
after_attempt now id row retry_count (ok ((false, _), db')) db =
    (false, retry_later now id row retry_count db')
after_attempt now id row retry_count (err e) db =
    if is_claim_lost e then (false, db) else (false, retry_later now id row retry_count db)

-- The body of the loop over the claimed rows. An on-chain settlement is given up at once.
unfoldable pub retry_one : Settings → ℕ → ℕ → ℕ → ℕ → PendingSettlement → Db → Bool × Db
unfolding after_attempt retry_later
retry_one s now entry earning id row db = elim row.billing_method [
  | credit_method ↦
      after_attempt now id row (row.retry_count + 1)
        (settle_claimed_credit s now entry earning id row (row.retry_count + 1) db) db
  | x402_method ↦ (false, retry_later now id row row.max_retries db)
]

-- ORDER BY next_retry_at
abbrev pub insert_by_due : ℕ × PendingSettlement → Keyed PendingSettlement → Keyed PendingSettlement
insert_by_due e [] = e ∷ []
insert_by_due e (f ∷ t) =
    if leb e.1.next_retry_at f.1.next_retry_at then e ∷ f ∷ t else f ∷ insert_by_due e t

abbrev pub sort_by_due : Keyed PendingSettlement → Keyed PendingSettlement
sort_by_due [] = []
sort_by_due (e ∷ t) = insert_by_due e (sort_by_due t)

unfoldable pub is_due : ℕ → ℕ × PendingSettlement → Bool
is_due now (_, p) = (is_waiting p.status || is_retrying p.status) && leb p.next_retry_at now

abbrev pub leased : ℕ → PendingSettlement → PendingSettlement
leased now p = record p { status = retrying; next_retry_at = now + 5 * minute_us }

-- The rows are returned as the update leaves them, here in the order of the candidates.
unfoldable pub claim_all : ℕ → Keyed PendingSettlement → Db → Keyed PendingSettlement × Db
claim_all now [] db = ([], db)
claim_all now ((id, p) ∷ t) db =
    let (rows, db') = claim_all now t (put_settlement id (leased now p) db) in
    ((id, leased now p) ∷ rows, db')

unfoldable pub claim_due : ℕ → Db → Keyed PendingSettlement × Db
unfolding claim_all is_due
claim_due now db =
    claim_all now (take 20 (sort_by_due (select (is_due now) db.pending_settlements))) db

-- Time goes on between the rows: row i is retried at `clock i`. It may use the ledger id entry + i
-- and the earnings ids from `earnings i` on.
unfoldable pub retry_all :
    Settings → (ℕ → ℕ) → (ℕ → ℕ) → ℕ → ℕ → Keyed PendingSettlement → Db → ℕ × Db
unfolding retry_one
retry_all s clock earnings entry i [] db = (0, db)
retry_all s clock earnings entry i ((id, row) ∷ rest) db =
    let (success, db') = retry_one s (clock i) (entry + i) (earnings i) id row db in
    let (processed, db'') = retry_all s clock earnings entry (i + 1) rest db' in
    ((if success then 1 else 0) + processed, db'')

unfoldable pub process_pending_settlements : Settings → ℕ → (ℕ → ℕ) → (ℕ → ℕ) → ℕ → Db → ℕ × Db
unfolding claim_due retry_all
process_pending_settlements s now clock earnings entry db =
    let (rows, db') = claim_due now db in retry_all s clock earnings entry 0 rows db'

abbrev pub rearmed : ℕ → PendingSettlement → PendingSettlement
rearmed now p = record p { status = waiting; retry_count = 0; next_retry_at = now }

abbrev pub is_x402_method : BillingMethod → Bool
is_x402_method x402_method = true
is_x402_method credit_method = false

-- `none` is the answer None, for a settlement that cannot be retried.
unfoldable pub reset_exhausted_settlement : ℕ → ℕ → Db → Option Bool × Db
reset_exhausted_settlement now id db = elim (lookup id db.pending_settlements) [
  | none ↦ (some false, db)
  | some p ↦
      if not (is_exhausted p.status)
      then (some false, db)
      else if is_x402_method p.billing_method
      then (none, db)
      else (some true, put_settlement id (rearmed now p) db)
]
