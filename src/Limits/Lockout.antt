-- ===== src/Limits/Lockout.antt =====
-- The lockout of failed sign-ins in teardrop/rate_limit.py. Times are in microseconds. What Redis
-- answers is an argument: `none` without a client, `some none` for an exception.
pub mod Threshold
use teardrop.Common.{
  Bool, Keyed, Option, false, if◌then◌else◌, leb, lookup, max, none, remove, some, true, upsert, ℕ,
  ◌*◌, ◌+◌, ◌-◌, ◌/◌,
}
use teardrop.Limits.Window.{evict_oldest, second}

-- A row of _auth_fail_counters.
pub record Failures : Type 0 where
  pub count : ℕ
  pub expires_at : ℕ

abbrev pub auth_fail_counter_max_keys : ℕ
auth_fail_counter_max_keys = 10_000

-- The row that the next failure counts on: a window that is over starts again.
unfoldable pub open_window : ℕ → ℕ → Option Failures → Failures
open_window now window_seconds none = record {
  count = 0;
  expires_at = now + window_seconds * second;
}
open_window now window_seconds (some f) =
    if leb f.expires_at now
    then record { count = 0; expires_at = now + window_seconds * second }
    else f

unfoldable pub record_auth_failure :
    Option (Option ℕ) → ℕ → ℕ → ℕ → Keyed Failures → ℕ × Keyed Failures
unfolding open_window
record_auth_failure (some (some count)) now key window_seconds counters = (count, counters)
record_auth_failure (some none) now key window_seconds counters =
    let f = open_window now window_seconds (lookup key counters) in
    (
      f.count + 1,
      evict_oldest auth_fail_counter_max_keys
          (upsert key (record f { count = f.count + 1 }) counters),
    )
record_auth_failure none now key window_seconds counters =
    let f = open_window now window_seconds (lookup key counters) in
    (
      f.count + 1,
      evict_oldest auth_fail_counter_max_keys
          (upsert key (record f { count = f.count + 1 }) counters),
    )

-- (locked, retry_after_seconds). Redis answers with the count, 0 for none, and the key's remaining
-- seconds, which are missing when there are none or they are not positive.
unfoldable pub check_auth_lockout :
    Option (Option (ℕ × Option ℕ)) → ℕ → ℕ → ℕ → ℕ → Keyed Failures → (Bool × ℕ) × Keyed Failures
check_auth_lockout (some (some (count, ttl))) now key threshold window_seconds counters =
    if leb threshold count
    then ((true, max 1 (elim ttl [ none ↦ window_seconds | some s ↦ s ])), counters)
    else ((false, 0), counters)
check_auth_lockout reply now key threshold window_seconds counters = elim (lookup key counters) [
  | none ↦ ((false, 0), counters)
  | some f ↦
      if leb f.expires_at now
      then ((false, 0), remove key counters)
      else if leb threshold f.count
      then ((true, max 1 ((f.expires_at - now) / second)), counters)
      else ((false, 0), counters)
]

-- `true` when Redis has deleted the key.
unfoldable pub clear_auth_failures : Bool → ℕ → Keyed Failures → Keyed Failures
clear_auth_failures in_redis key counters = if in_redis then counters else remove key counters
