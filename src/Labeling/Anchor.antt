-- ===== src/Labeling/Anchor.antt =====
-- The life of a commitment batch, of labeling/anchor.py: every UPDATE of commitment_batches is a
-- function on the table, and `_confirm` is a function of what the RPC endpoint answers. Hashes,
-- addresses and messages are numbers, the empty message is 0; times are microseconds.
pub mod Frozen
pub mod Evidence
use teardrop.Common.{
  Bool, Keyed, Option, [], false, if◌then◌else◌, leb, lookup, ltb, none, not, some, true, upsert, ℕ,
  ◌&&◌, ◌*◌, ◌+◌, ◌==◌, ◌||◌, ◌∷◌,
}
use teardrop.Limits.Slots.{here}

-- A row of commitment_batches.
pub record Batch : Type 0 where
  pub merkle_root : ℕ
  pub leaf_count : ℕ
  pub chain_id : ℕ
  pub tx_hash : Option ℕ
  pub anchor_address : Option ℕ
  pub block_number : Option ℕ
  pub anchored_at : Option ℕ
  pub lease_expires_at : Option ℕ
  pub attempts : ℕ
  pub last_error : ℕ
  pub created_at : ℕ

abbrev pub send_lease : ℕ
send_lease = 900 * 1_000_000

abbrev pub is_null : Option ℕ → Bool
is_null none = true
is_null (some n) = false

abbrev pub is_value : Option ℕ → ℕ → Bool
is_value none m = false
is_value (some n) m = n == m

-- UPDATE commitment_batches SET f WHERE id = id
abbrev pub update_batch : ℕ → (Batch → Batch) → Keyed Batch → Keyed Batch
update_batch id f table = elim (lookup id table) [ none ↦ table | some b ↦ upsert id (f b) table ]

-- lease_expires_at IS NULL OR lease_expires_at <= NOW()
abbrev pub lease_is_over : ℕ → Option ℕ → Bool
lease_is_over now none = true
lease_is_over now (some t) = leb t now

abbrev pub is_unsent : ℕ → Batch → Bool
is_unsent now b =
    is_null b.tx_hash && (is_null b.block_number && lease_is_over now b.lease_expires_at)

-- (created_at, id) < (created_at, id)
abbrev pub is_before : ℕ × Batch → ℕ × Batch → Bool
is_before (i, a) (j, b) =
    if a.created_at == b.created_at then ltb i j else ltb a.created_at b.created_at

-- ORDER BY created_at, id LIMIT 1
abbrev pub oldest : (Batch → Bool) → Keyed Batch → Option (ℕ × Batch)
oldest p [] = none
oldest p ((i, b) ∷ t) =
    let rest = oldest p t in
    let here : Option (ℕ × Batch) = elim rest [
      | none ↦ some (i, b)
      | some r ↦ if is_before r (i, b) then some r else some (i, b)
    ] in
    if p b then here else rest

abbrev pub leased_batch : ℕ → Batch → Batch
leased_batch now b =
    if is_unsent now b
    then record b { lease_expires_at = some (now + send_lease); attempts = b.attempts + 1 }
    else b

-- _claim_unsent_batch
unfoldable pub claim_unsent_batch : ℕ → Keyed Batch → Option (ℕ × Batch) × Keyed Batch
claim_unsent_batch now table = elim (oldest (is_unsent now) table) [
  | none ↦ (none, table)
  | some (id, b) ↦ (some (id, b), update_batch id (leased_batch now) table)
]

abbrev pub submitted : ℕ → ℕ → Batch → Batch
submitted tx address b =
    if is_null b.tx_hash
    then record b { tx_hash = some tx; anchor_address = some address; last_error = 0 }
    else b

-- _record_submission
unfoldable pub record_submission : ℕ → ℕ → ℕ → Keyed Batch → Keyed Batch
record_submission id tx address table = update_batch id (submitted tx address) table

abbrev pub unleased : ℕ → Batch → Batch
unleased error b =
    if is_null b.tx_hash then record b { lease_expires_at = none; last_error = error } else b

-- _release_unsent
unfoldable pub release_unsent : ℕ → ℕ → Keyed Batch → Keyed Batch
release_unsent id error table = update_batch id (unleased error) table

abbrev pub unsubmitted : ℕ → ℕ → Batch → Batch
unsubmitted tx error b =
    if is_value b.tx_hash tx && is_null b.block_number
    then record b {
      tx_hash = none;
      anchor_address = none;
      lease_expires_at = none;
      last_error = error;
    }
    else b

-- _reset_submission
unfoldable pub reset_submission : ℕ → ℕ → ℕ → Keyed Batch → Keyed Batch
reset_submission id tx error table = update_batch id (unsubmitted tx error) table

abbrev pub anchored : ℕ → ℕ → ℕ → Batch → Batch
anchored tx block at b =
    if is_value b.tx_hash tx && is_null b.block_number
    then record b {
      block_number = some block;
      anchored_at = some at;
      lease_expires_at = none;
      last_error = 0;
    }
    else b

-- _record_confirmation
unfoldable pub record_confirmation : ℕ → ℕ → ℕ → ℕ → Keyed Batch → Keyed Batch
record_confirmation id tx block at table = update_batch id (anchored tx block at) table

-- What eth_getTransactionByHash, eth_getTransactionReceipt and eth_getBlockByNumber answer, where
-- they answer: the fields that are read.
pub record ChainTx : Type 0 where
  pub in_block : Bool
  pub input : ℕ
  pub from : ℕ
  pub to : ℕ

pub record Receipt : Type 0 where
  pub is_ok : Bool
  pub number : ℕ
  pub block_hash : Option ℕ

pub record Block : Type 0 where
  pub hash : ℕ
  pub timestamp : ℕ

pub record Rpc : Type 0 where
  pub tx : Option ChainTx
  pub receipt : Option Receipt
  pub block : Option Block
  pub finalized : Option ℕ

-- A row of _list_submitted.
pub record Submitted : Type 0 where
  pub id : ℕ
  pub root : ℕ
  pub hash : ℕ
  pub address : ℕ
  pub lease_expired : Bool

abbrev pub matches : Submitted → ChainTx → Bool
matches row t = t.input == row.root && (t.from == row.address && t.to == row.address)

-- The block of the receipt is final, and on the chain.
abbrev pub confirm_block :
    ℕ → ℕ → Receipt → Option Block → Option ℕ → Keyed Batch → Bool × Keyed Batch
confirm_block id hash receipt none finalized table = (false, table)
confirm_block id hash receipt (some block) none table = (false, table)
confirm_block id hash receipt (some block) (some final) table =
    if ltb final receipt.number
    then (false, table)
    else if is_value receipt.block_hash block.hash
    then (true, record_confirmation id hash receipt.number block.timestamp table)
    else (false, table)

-- _confirm, with the messages of the two resets.
unfoldable pub confirm : ℕ → ℕ → Submitted → Rpc → Keyed Batch → Bool × Keyed Batch
unfolding reset_submission record_confirmation
confirm not_found reverted row rpc table = elim rpc.tx [
  | none ↦
      (false, if row.lease_expired then reset_submission row.id row.hash not_found table else table)
  | some t ↦ if not t.in_block then (false, table) else elim rpc.receipt [
    | none ↦ (false, table)
    | some receipt ↦
        if not receipt.is_ok || not (matches row t)
        then (false, reset_submission row.id row.hash reverted table)
        else confirm_block row.id row.hash receipt rpc.block rpc.finalized table
  ]
]

-- One statement of any worker.
pub data Write : Keyed Batch → Keyed Batch → Type 0 where
  claims : {t : Keyed Batch} (now : ℕ) → Write t (claim_unsent_batch now t).1
  submits : {t : Keyed Batch} (id tx address : ℕ) → Write t (record_submission id tx address t)
  gives_up : {t : Keyed Batch} (id error : ℕ) → Write t (release_unsent id error t)
  resets : {t : Keyed Batch} (id tx error : ℕ) → Write t (reset_submission id tx error t)
  confirms : {t : Keyed Batch} (id tx n at : ℕ) → Write t (record_confirmation id tx n at t)

pub data Writes : Keyed Batch → Keyed Batch → Type 0 where
  none_made : {t : Keyed Batch} → Writes t t
  then_write : {t u v : Keyed Batch} → Writes t u → Write u v → Writes t v
