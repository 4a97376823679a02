-- ===== src/Limits/Lockout/Threshold.antt =====
-- A key is locked out exactly from its threshold of failures to the end of their window.
use teardrop.Common.{
  ==_refl, All, Bool-cases, Keyed, List, [], arith, false, inl, inr, leb, length, length-upsert,
  lookup, lookup-remove, lookup-upsert, ltb, max, none, refl, some, true, upsert, ℕ, ◌*◌, ◌+◌, ◌-◌,
  ◌/◌, ◌<◌, ◌↔◌, ◌∷◌, ◌≡◌, ◌≤◌,
}
use teardrop.Limits.Lockout.{
  Failures, auth_fail_counter_max_keys, check_auth_lockout, open_window, record_auth_failure,
}
use teardrop.Limits.Window.{second}

-- Failures of a key at the given times, without Redis.
abbrev pub record_failures : ℕ → ℕ → List ℕ → Keyed Failures → Keyed Failures
record_failures key window_seconds [] counters = counters
record_failures key window_seconds (t ∷ ts) counters =
    record_failures key window_seconds ts (record_auth_failure none t key window_seconds counters).1

length-upsert-present {ℓ} :
    {V : Type ℓ} (k : ℕ) (v w : V) (t : Keyed V)
    → lookup k t ≡ some w
    → length (upsert k v t) ≡ length t
length-upsert-present k v w [] at = cc
length-upsert-present k v w ((j, x) ∷ t) at = ground (arith, length-upsert-present k v w t)

-- One more failure in a window that is not over.
record_auth_failure-counts :
    (t key w n e : ℕ) (c : Keyed Failures)
    → lookup key c ≡ some (record { count = n; expires_at = e })
    → t < e
    → length c ≤ auth_fail_counter_max_keys
    → (c' : Keyed Failures) × ((record_auth_failure none t key w c).1 ≡ c')
      × (lookup key c' ≡ some (record { count = n + 1; expires_at = e }))
      × (length c' ≤ auth_fail_counter_max_keys)
unfolding record_auth_failure open_window
record_auth_failure-counts t key w n e c at early small =
    let running : leb e t ≡ false = ground arith in
    let next : Failures = record { count = n + 1; expires_at = e } in
    let size = length-upsert-present key next (record { count = n; expires_at = e }) c at in
    let fits : ltb auth_fail_counter_max_keys (length (upsert key next c)) ≡ false = ground arith in
    (
      upsert key next c,
      rw (at, running, fits) refl,
      rw (lookup-upsert key key next c, ==_refl key) refl,
      omega arith,
    )

record_failures-counts :
    (ts : List ℕ) (key w n e : ℕ) (c : Keyed Failures)
    → lookup key c ≡ some (record { count = n; expires_at = e })
    → All (λ t. t < e) ts
    → length c ≤ auth_fail_counter_max_keys
    → lookup key (record_failures key w ts c)
      ≡ some (record { count = n + length ts; expires_at = e })
record_failures-counts [] key w n e c at early small =
    let same : n + 0 ≡ n = omega arith in rw same at
record_failures-counts (t ∷ ts) key w n e c at (first, early) small =
    let (c', is_next, at', small') = record_auth_failure-counts t key w n e c at first small in
    let total : n + 1 + length ts ≡ n + length (t ∷ ts) = omega arith in
    rw is_next (rw total at (record_failures-counts ts key w (n + 1) e c' at' early small'))

record_first :
    (ts : List ℕ) (key w first : ℕ) (c : Keyed Failures)
    → lookup key c ≡ none
    → length c < auth_fail_counter_max_keys
    → All (λ t. t < first + w * second) ts
    → lookup key (record_failures key w (first ∷ ts) c)
      ≡ some (record { count = length (first ∷ ts); expires_at = first + w * second })
unfolding record_auth_failure open_window
record_first ts key w first c fresh small early =
    let next : Failures = record { count = 1; expires_at = first + w * second } in
    let size = length-upsert key next c in
    let fits : ltb auth_fail_counter_max_keys (length (upsert key next c)) ≡ false = ground arith in
    let total : 1 + length ts ≡ length (first ∷ ts) = omega arith in
    let at : lookup key (upsert key next c) ≡ some next =
      rw (lookup-upsert key key next c, ==_refl key) refl in
    rw (fresh, fits)
      (rw total at (
        record_failures-counts ts key w 1 (first + w * second) (upsert key next c) at early
          (omega arith)))

check_inside :
    (now key threshold w n e : ℕ) (c : Keyed Failures)
    → lookup key c ≡ some (record { count = n; expires_at = e })
    → now < e
    → e ≤ now + w * second
    → let ((locked, retry_after), c1) = check_auth_lockout none now key threshold w c in
      ((locked ≡ true) ↔ (threshold ≤ n))
      × (retry_after ≤ max 1 w)
      × (locked ≡ true → 0 < retry_after)
unfolding check_auth_lockout
check_inside now key threshold w n e c at inside near =
    let running : leb e now ≡ false = ground arith in
    let short : max 1 ((e - now) / second) ≤ max 1 w = omega arith in
    elim (Bool-cases (leb threshold n)) [
      | inl many ↦
          let reached : threshold ≤ n = ground arith in
          rw (at, running, many, check_auth_lockout)
            ((λ _. reached, λ _. refl), short, λ _. omega arith)
      | inr few ↦
          rw (at, running, few, check_auth_lockout)
            ((λ h. cc, λ h. absurd (ground arith)), omega arith, λ h. cc)
    ]

check_over :
    (now key threshold w n e : ℕ) (c : Keyed Failures)
    → lookup key c ≡ some (record { count = n; expires_at = e })
    → e ≤ now
    → let ((locked, retry_after), c1) = check_auth_lockout none now key threshold w c in
      (locked ≡ false) × (lookup key c1 ≡ none)
unfolding check_auth_lockout
check_over now key threshold w n e c at over =
    let ended : leb e now ≡ true = ground arith in
    rw (at, ended, check_auth_lockout) (refl, rw (lookup-remove key key c, ==_refl key) refl)

-- A key with no failures yet, of which some then fail within `window_seconds` of the first, without
-- Redis and with room for the key: a later check inside the window locks it exactly when the
-- failures reach the threshold, for at least a second and at most the longer of that and the window,
-- and a check at the end of the window or later finds it unlocked and forgets it.
pub check_auth_lockout-record_failures :
    (now first key threshold window_seconds : ℕ) (ts : List ℕ) (c : Keyed Failures)
    → lookup key c ≡ none
    → length c < auth_fail_counter_max_keys
    → first ≤ now
    → All (λ t. t < first + window_seconds * second) ts
    → let c' = record_failures key window_seconds (first ∷ ts) c in
      let ((locked, retry_after), c1) =
        check_auth_lockout none now key threshold window_seconds c' in
      (now < first + window_seconds * second
        → ((locked ≡ true) ↔ (threshold ≤ length (first ∷ ts)))
          × (retry_after ≤ max 1 window_seconds)
          × (locked ≡ true → 0 < retry_after))
      × (first + window_seconds * second ≤ now → (locked ≡ false) × (lookup key c1 ≡ none))
check_auth_lockout-record_failures now first key threshold w ts c fresh small after early =
    let state = record_first ts key w first c fresh small early in
    (
      λ inside.
          check_inside now key threshold w (length (first ∷ ts)) (first + w * second)
            (record_failures key w (first ∷ ts) c) state inside (omega arith),
      λ over.
          check_over now key threshold w (length (first ∷ ts)) (first + w * second)
            (record_failures key w (first ∷ ts) c) state over,
    )
