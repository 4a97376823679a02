-- ===== src/Labeling/Anchor/Evidence.antt =====
-- What a confirmed batch rests on.
use teardrop.Common.{
  ==_refl, Bool, Bool-cases, Keyed, Option, Option-cases, ap, arith, false, inl, inr, lookup,
  lookup-upsert, ltb, none, not, refl, some, subst, sym, true, upsert, ℕ, ◌||◌, ◌∙◌, ◌≡◌, ◌≤◌, ◌⊎◌,
}
use teardrop.Labeling.Anchor.{
  Batch, Block, ChainTx, Receipt, Rpc, Submitted, anchored, confirm, confirm_block, is_null,
  is_value, matches, record_confirmation, reset_submission, unsubmitted, update_batch,
}

-- The answers of the chain for a submitted batch: a successful transaction of the root from and to the
-- anchor address, in a final block that is on the chain.
pub record IsAnchored (row : Submitted) (rpc : Rpc) (number at : ℕ) : Type 0 where
  pub tx : ChainTx
  pub receipt : Receipt
  pub block : Block
  pub final : ℕ
  pub found : rpc.tx ≡ some tx
  pub in_block : tx.in_block ≡ true
  pub commits : tx.input ≡ row.root
  pub sender : tx.from ≡ row.address
  pub receiver : tx.to ≡ row.address
  pub has_receipt : rpc.receipt ≡ some receipt
  pub succeeded : receipt.is_ok ≡ true
  pub has_block : rpc.block ≡ some block
  pub on_chain : receipt.block_hash ≡ some block.hash
  pub has_final : rpc.finalized ≡ some final
  pub is_final : receipt.number ≤ final
  pub numbered : number ≡ receipt.number
  pub dated : at ≡ block.timestamp

is_value-some : (o : Option ℕ) (n : ℕ) → is_value o n ≡ true → o ≡ some n
is_value-some none n h = cc
is_value-some (some m) n h = let e : m ≡ n = ground arith in ap some e

-- The row of a batch whose block is recorded.
abbrev pub confirmed_batch : (number at : ℕ) → Batch → Batch
confirmed_batch number at b = record b {
  block_number = some number;
  anchored_at = some at;
  lease_expires_at = none;
  last_error = 0;
}

-- The answer true with the block recorded on the evidence of the chain, and no other row touched; or
-- the answer false with the batch not confirmed.
abbrev pub Confirms : Submitted → Rpc → Batch → Keyed Batch → Bool × Keyed Batch → Type 0
Confirms row rpc b t (answered, t') =
    ((answered ≡ true)
      × (number : ℕ) × (at : ℕ) × IsAnchored row rpc number at
      × (t' ≡ upsert row.id (confirmed_batch number at b) t))
    ⊎ ((answered ≡ false) × (b' : Batch) × (lookup row.id t' ≡ some b') × (b'.block_number ≡ none))

abbrev IsOpen : Submitted → Batch → Keyed Batch → Type 0
IsOpen row b t = (lookup row.id t ≡ some b) × (b.tx_hash ≡ some row.hash) × (b.block_number ≡ none)

kept-Confirms :
    (row : Submitted) (rpc : Rpc) (b : Batch) (t : Keyed Batch)
    → IsOpen row b t
    → Confirms row rpc b t (false, t)
kept-Confirms row rpc b t (found, _, unconfirmed) = inr (refl, b, found, unconfirmed)

update_batch-found :
    (id : ℕ) (f : Batch → Batch) (b : Batch) (t : Keyed Batch)
    → lookup id t ≡ some b
    → update_batch id f t ≡ upsert id (f b) t
update_batch-found id f b t found = rw (found, update_batch) refl

reset_submission-Confirms :
    (row : Submitted) (rpc : Rpc) (error : ℕ) (b : Batch) (t : Keyed Batch)
    → IsOpen row b t
    → Confirms row rpc b t (false, reset_submission row.id row.hash error t)
unfolding reset_submission
reset_submission-Confirms row rpc error b t (found, _, unconfirmed) =
    let b' = unsubmitted row.hash error b in
    let there : lookup row.id (upsert row.id b' t) ≡ some b' =
      rw (lookup-upsert row.id row.id b' t, ==_refl row.id) refl in
    inr (
      refl,
      b',
      ap (lookup row.id) (update_batch-found row.id (unsubmitted row.hash error) b t found) ∙ there,
      ground (arith, unconfirmed),
    )

anchored-confirmed :
    (hash number at : ℕ) (b : Batch)
    → b.tx_hash ≡ some hash
    → b.block_number ≡ none
    → anchored hash number at b ≡ confirmed_batch number at b
anchored-confirmed hash number at b sent unconfirmed =
    let it : is_value b.tx_hash hash ≡ true = rw sent (==_refl hash) in
    let open_batch : is_null b.block_number ≡ true = rw unconfirmed refl in cc

recorded :
    (row : Submitted) (number at : ℕ) (b : Batch) (t : Keyed Batch)
    → IsOpen row b t
    → record_confirmation row.id row.hash number at t
      ≡ upsert row.id (confirmed_batch number at b) t
unfolding record_confirmation
recorded row number at b t (found, sent, unconfirmed) =
    update_batch-found row.id (anchored row.hash number at) b t found
    ∙ ap (λ x. upsert row.id x t) (anchored-confirmed row.hash number at b sent unconfirmed)

confirm_block-Confirms :
    (row : Submitted) (rpc : Rpc) (tx : ChainTx) (receipt : Receipt) (block : Option Block)
    (final : Option ℕ) (b : Batch) (t : Keyed Batch)
    → rpc.tx ≡ some tx
    → tx.in_block ≡ true
    → rpc.receipt ≡ some receipt
    → (not receipt.is_ok || not (matches row tx)) ≡ false
    → rpc.block ≡ block
    → rpc.finalized ≡ final
    → IsOpen row b t
    → Confirms row rpc b t (confirm_block row.id row.hash receipt block final t)
confirm_block-Confirms row rpc tx receipt none final b t found in_block has_receipt good has_block
      has_final still =
    kept-Confirms row rpc b t still
confirm_block-Confirms row rpc tx receipt (some k) none b t found in_block has_receipt good
      has_block has_final still =
    kept-Confirms row rpc b t still
confirm_block-Confirms row rpc tx receipt (some k) (some n) b t found in_block has_receipt good
      has_block has_final still =
    elim (Bool-cases (ltb n receipt.number)) [
      | inl open_block ↦ rw open_block (kept-Confirms row rpc b t still)
      | inr is_final ↦ elim (Bool-cases (is_value receipt.block_hash k.hash)) [
        | inr orphan ↦ rw (is_final, orphan) (kept-Confirms row rpc b t still)
        | inl on_chain ↦
            rw (is_final, on_chain)
              (inl (
                refl,
                receipt.number,
                k.timestamp,
                record {
                  tx = tx;
                  receipt = receipt;
                  block = k;
                  final = n;
                  found = found;
                  in_block = in_block;
                  commits = ground (arith, good);
                  sender = ground (arith, good);
                  receiver = ground (arith, good);
                  has_receipt = has_receipt;
                  succeeded = ground (arith, good);
                  has_block = has_block;
                  on_chain = is_value-some receipt.block_hash k.hash on_chain;
                  has_final = has_final;
                  is_final = ground arith;
                  numbered = refl;
                  dated = refl;
                },
                recorded row receipt.number k.timestamp b t still,
              ))
      ]
    ]

-- For a batch that still has the submitted transaction and no block, `_confirm` either answers true,
-- when the chain has answered with a successful transaction that commits to the root of the row, from
-- and to its anchor address, in a block that is final and on the chain, and then the number and the
-- time of that block are recorded on the batch and nothing else is changed; or it answers false, and
-- the batch is there without a block.
pub confirm-IsAnchored :
    (not_found reverted : ℕ) (row : Submitted) (rpc : Rpc) (b : Batch) (t : Keyed Batch)
    → lookup row.id t ≡ some b
    → b.tx_hash ≡ some row.hash
    → b.block_number ≡ none
    → Confirms row rpc b t (confirm not_found reverted row rpc t)
unfolding confirm
confirm-IsAnchored not_found reverted row rpc b t there sent unconfirmed =
    let still : IsOpen row b t = (there, sent, unconfirmed) in
    let is : (r : Bool × Keyed Batch)
        → confirm not_found reverted row rpc t ≡ r
        → Confirms row rpc b t r
        → Confirms row rpc b t (confirm not_found reverted row rpc t) =
      λ r same. subst (Confirms row rpc b t) (sym same) in
    let kept = kept-Confirms row rpc b t still in
    let undone : (error : ℕ)
        → Confirms row rpc b t (false, reset_submission row.id row.hash error t) =
      λ error. reset_submission-Confirms row rpc error b t still in
    elim (Option-cases rpc.tx) [
      | inl unknown ↦ elim (Bool-cases row.lease_expired) [
        | inl e ↦ is _ (rw (unknown, e, confirm) refl) (undone not_found)
        | inr e ↦ is _ (rw (unknown, e, confirm) refl) kept
      ]
      | inr (tx, found) ↦ elim (Bool-cases tx.in_block) [
        | inr unmined ↦ is _ (rw (found, unmined, confirm) refl) kept
        | inl in_block ↦ elim (Option-cases rpc.receipt) [
          | inl unknown ↦ is _ (rw (found, in_block, unknown, confirm) refl) kept
          | inr (receipt, has_receipt) ↦
              elim (Bool-cases (not receipt.is_ok || not (matches row tx))) [
                | inl bad ↦
                    is _ (rw (found, in_block, has_receipt, bad, confirm) refl) (undone reverted)
                | inr good ↦ is _ (rw (found, in_block, has_receipt, good, confirm) refl) (
                    confirm_block-Confirms row rpc tx receipt rpc.block rpc.finalized b t found
                      in_block has_receipt good refl refl still)
              ]
        ]
      ]
    ]
