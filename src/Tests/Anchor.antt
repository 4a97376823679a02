-- ===== src/Tests/Anchor.antt =====
-- The life of a batch on a table with one row.
use teardrop.Common.{[], false, lookup, none, refl, some, true, ◌∷◌, ◌≡◌}
use teardrop.Labeling.Anchor.{
  Batch, Rpc, Submitted, Writes, claim_unsent_batch, claims, confirm, is_null, none_made,
  record_confirmation, reset_submission, resets, then_write,
}
use teardrop.Labeling.Anchor.Evidence.{Confirms, confirm-IsAnchored}
use teardrop.Labeling.Anchor.Frozen.{IsSound, Writes-frozen}

-- A batch that was sent, is confirmed, and stays.
abbrev sent : Batch
sent = record {
  merkle_root = 1563;
  leaf_count = 5;
  chain_id = 8453;
  tx_hash = some 70;
  anchor_address = some 80;
  block_number = none;
  anchored_at = none;
  lease_expires_at = some 900;
  attempts = 1;
  last_error = 0;
  created_at = 10;
}

abbrev final : Batch
final = record sent { block_number = some 33; anchored_at = some 44; lease_expires_at = none }

abbrev row : Submitted
row = record { id = 1; root = 1563; hash = 70; address = 80; lease_expired = false }

abbrev chain : Rpc
chain = record {
  tx = some (record { in_block = true; input = 1563; from = 80; to = 80 });
  receipt = some (record { is_ok = true; number = 33; block_hash = some 55 });
  block = some (record { hash = 55; timestamp = 44 });
  finalized = some 40;
}

confirm-IsAnchored_example :
    Confirms row chain sent ((1, sent) ∷ []) (confirm 2 3 row chain ((1, sent) ∷ []))
confirm-IsAnchored_example = confirm-IsAnchored 2 3 row chain sent ((1, sent) ∷ []) refl refl refl

confirmed_row : (confirm 2 3 row chain ((1, sent) ∷ [])).1 ≡ (1, final) ∷ []
unfolding confirm record_confirmation
confirmed_row = refl

-- A claim and a late reset of the same transaction.
late :
    Writes ((1, final) ∷ []) (reset_submission 1 70 3 (claim_unsent_batch 2000 ((1, final) ∷ [])).1)
late = then_write (then_write none_made (claims 2000)) (resets 1 70 3)

Writes-frozen_example :
    (b : Batch) × (lookup 1 (reset_submission 1 70 3 (claim_unsent_batch 2000 ((1, final) ∷ [])).1)
      ≡ some b)
    × (b.merkle_root ≡ 1563)
    × (b.leaf_count ≡ 5)
    × (b.chain_id ≡ 8453)
    × IsSound b
    × (is_null (some 33) ≡ false → b ≡ final)
Writes-frozen_example =
    Writes-frozen 1 ((1, final) ∷ [])
      (reset_submission 1 70 3 (claim_unsent_batch 2000 ((1, final) ∷ [])).1) final late refl
      (refl, refl, λ _. refl)
