-- ===== src/Labeling/Anchor/Frozen.antt =====
-- What no statement changes in a batch.
use teardrop.Common.{
  Bool, Bool-cases, Bool-clash, Keyed, Option, Option-cases, arith, false, if◌then◌else◌, inl, inr,
  lookup, lookup-upsert, none, refl, some, sym, true, ℕ, ◌&&◌, ◌+◌, ◌==◌, ◌∙◌, ◌≡◌,
}
use teardrop.Labeling.Anchor.{
  Batch, Write, Writes, anchored, claim_unsent_batch, claims, confirms, gives_up, is_null,
  is_unsent, is_value, leased_batch, none_made, oldest, record_confirmation, record_submission,
  release_unsent, reset_submission, resets, send_lease, submits, submitted, then_write, unleased,
  unsubmitted, update_batch,
}

-- The CHECK constraints of a row: a hash comes with its address, a block with its time, and a block
-- with a hash.
abbrev pub IsSound : Batch → Type 0
IsSound b =
    (is_null b.tx_hash ≡ is_null b.anchor_address)
    × (is_null b.block_number ≡ is_null b.anchored_at)
    × (is_null b.block_number ≡ false → is_null b.tx_hash ≡ false)

-- What a statement may do to a row: keep what was committed, keep the constraints, and nothing at all
-- once it is confirmed.
abbrev Keeps : Batch → Batch → Type 0
Keeps b b' =
    (b'.merkle_root ≡ b.merkle_root)
    × (b'.leaf_count ≡ b.leaf_count)
    × (b'.chain_id ≡ b.chain_id)
    × (IsSound b → IsSound b' × (is_null b.block_number ≡ false → b' ≡ b))

Keeps-refl : (b : Batch) → Keeps b b
Keeps-refl b = (refl, refl, refl, λ sound. (sound, λ _. refl))

Keeps-trans : (a b c : Batch) → Keeps a b → Keeps b c → Keeps a c
Keeps-trans a b c (root, count, chain, keep) (root', count', chain', keep') = (
  root' ∙ root,
  count' ∙ count,
  chain' ∙ chain,
  λ sound.
      let (sound_b, same) = keep sound in
      let (sound_c, same') = keep' sound_b in
      (sound_c, λ final. let e = same final in same' (rw e final) ∙ e),
)

is_null-is_value : (o : Option ℕ) (n : ℕ) → is_value o n ≡ true → is_null o ≡ false
is_null-is_value none n h = cc
is_null-is_value (some m) n h = refl

guard-Keeps : (g : Bool) (b b' : Batch) → (g ≡ true → Keeps b b') → Keeps b (if g then b' else b)
guard-Keeps true b b' keeps = keeps refl
guard-Keeps false b b' keeps = Keeps-refl b

leased_batch-Keeps : (now : ℕ) (b : Batch) → Keeps b (leased_batch now b)
leased_batch-Keeps now b =
    guard-Keeps (is_unsent now b) b
      (record b { lease_expires_at = some (now + send_lease); attempts = b.attempts + 1 })
      (λ unsent.
        (refl, refl, refl, λ sound. (sound, λ final. absurd (ground (arith, unsent, final)))))

submitted-Keeps : (tx address : ℕ) (b : Batch) → Keeps b (submitted tx address b)
submitted-Keeps tx address b =
    guard-Keeps (is_null b.tx_hash) b
      (record b { tx_hash = some tx; anchor_address = some address; last_error = 0 })
      (λ unsent. (
        refl,
        refl,
        refl,
        λ sound. ((refl, sound.1, λ _. refl), λ final. absurd (Bool-clash unsent (sound.2 final))),
      ))

unleased-Keeps : (error : ℕ) (b : Batch) → Keeps b (unleased error b)
unleased-Keeps error b =
    guard-Keeps (is_null b.tx_hash) b (record b { lease_expires_at = none; last_error = error })
      (λ unsent.
        (refl, refl, refl, λ sound. (sound, λ final. absurd (Bool-clash unsent (sound.2 final)))))

unsubmitted-Keeps : (tx error : ℕ) (b : Batch) → Keeps b (unsubmitted tx error b)
unsubmitted-Keeps tx error b =
    guard-Keeps (is_value b.tx_hash tx && is_null b.block_number) b
      (record b {
        tx_hash = none;
        anchor_address = none;
        lease_expires_at = none;
        last_error = error;
      })
      (λ mine.
        let open_row : is_null b.block_number ≡ true = ground (arith, mine) in
        (
          refl,
          refl,
          refl,
          λ sound. (
            (refl, sound.1, λ final. absurd (Bool-clash open_row final)),
            λ final. absurd (Bool-clash open_row final),
          ),
        ))

anchored-Keeps : (tx block at : ℕ) (b : Batch) → Keeps b (anchored tx block at b)
anchored-Keeps tx block at b =
    guard-Keeps (is_value b.tx_hash tx && is_null b.block_number) b
      (record b {
        block_number = some block;
        anchored_at = some at;
        lease_expires_at = none;
        last_error = 0;
      })
      (λ mine.
        let open_row : is_null b.block_number ≡ true = ground (arith, mine) in
        let sent : is_value b.tx_hash tx ≡ true = ground (arith, mine) in
        (
          refl,
          refl,
          refl,
          λ sound. (
            (sound.0, refl, λ _. is_null-is_value b.tx_hash tx sent),
            λ final. absurd (Bool-clash open_row final),
          ),
        ))

-- A row of the table after a statement.
update_batch-Keeps :
    (id k : ℕ) (f : Batch → Batch) (t : Keyed Batch) (b : Batch)
    → ((a : Batch) → Keeps a (f a))
    → lookup k t ≡ some b
    → (b' : Batch) × (lookup k (update_batch id f t) ≡ some b') × Keeps b b'
update_batch-Keeps id k f t b keeps at = elim (Option-cases (lookup id t)) [
  | inl missing ↦ rw (missing, update_batch) (b, at, Keeps-refl b)
  | inr (a, at_id) ↦ elim (Bool-cases (id == k)) [
    | inl same ↦
        let e : id ≡ k = ground arith in
        let is_b : a ≡ b = cc in
        rw (at_id, update_batch)
          (f a, rw (lookup-upsert id k (f a) t, same) refl, rw (sym is_b) (keeps a))
    | inr differ ↦
        rw (at_id, update_batch) (b, rw (lookup-upsert id k (f a) t, differ) at, Keeps-refl b)
  ]
]

Write-Keeps :
    (k : ℕ) {t u : Keyed Batch} (b : Batch)
    → Write t u
    → lookup k t ≡ some b
    → (b' : Batch) × (lookup k u ≡ some b') × Keeps b b'
unfolding claim_unsent_batch record_submission release_unsent reset_submission record_confirmation
Write-Keeps k {t} b (claims now) at = elim (Option-cases (oldest (is_unsent now) t)) [
  | inl nothing ↦ rw (nothing, claim_unsent_batch) (b, at, Keeps-refl b)
  | inr ((id, a), found) ↦
      rw (found, claim_unsent_batch)
        (update_batch-Keeps id k (leased_batch now) t b (leased_batch-Keeps now) at)
]
Write-Keeps k {t} b (submits id tx address) at =
    update_batch-Keeps id k (submitted tx address) t b (submitted-Keeps tx address) at
Write-Keeps k {t} b (gives_up id error) at =
    update_batch-Keeps id k (unleased error) t b (unleased-Keeps error) at
Write-Keeps k {t} b (resets id tx error) at =
    update_batch-Keeps id k (unsubmitted tx error) t b (unsubmitted-Keeps tx error) at
Write-Keeps k {t} b (confirms id tx block at_time) at =
    update_batch-Keeps id k (anchored tx block at_time) t b (anchored-Keeps tx block at_time) at

Writes-Keeps :
    (k : ℕ) {t u : Keyed Batch} (b : Batch)
    → Writes t u
    → lookup k t ≡ some b
    → (b' : Batch) × (lookup k u ≡ some b') × Keeps b b'
Writes-Keeps k b none_made at = (b, at, Keeps-refl b)
Writes-Keeps k b (then_write steps st) at =
    let (b1, at1, keeps1) = Writes-Keeps k b steps at in
    let (b2, at2, keeps2) = Write-Keeps k b1 st at1 in (b2, at2, Keeps-trans b b1 b2 keeps1 keeps2)

-- Whatever statements any workers make, in any order, on a batch that satisfies the constraints of its
-- table: the batch keeps its root, its leaf count, its chain and the constraints, and once it is
-- confirmed, no field of it changes.
pub Writes-frozen :
    (id : ℕ) (t u : Keyed Batch) (b : Batch)
    → Writes t u
    → lookup id t ≡ some b
    → IsSound b
    → (b' : Batch) × (lookup id u ≡ some b')
      × (b'.merkle_root ≡ b.merkle_root)
      × (b'.leaf_count ≡ b.leaf_count)
      × (b'.chain_id ≡ b.chain_id)
      × IsSound b'
      × (is_null b.block_number ≡ false → b' ≡ b)
Writes-frozen id t u b steps at sound =
    let (b', at', (root, count, chain, keep)) = Writes-Keeps id b steps at in
    (b', at', root, count, chain, (keep sound).0, (keep sound).1)
