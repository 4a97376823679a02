-- ===== src/Limits/Window.antt =====
-- The request windows of teardrop/rate_limit.py: `_check_rate_limit`. Times are in microseconds. The
-- answer of Redis is an argument: no client, an exception, or the members that ZCARD counted. The
-- counters are a dict in insertion order.
pub mod Bound
pub mod Reference
use teardrop.Agent.Plan.Order.{longer}
use teardrop.Common.{
  Bool, Keyed, List, Option, [], drop, false, if◌then◌else◌, leb, length, lookup, ltb, none, select,
  some, true, upsert, ℕ, ◌*◌, ◌++◌, ◌+◌, ◌-◌, ◌/◌, ◌∷◌,
}

abbrev pub second : ℕ
second = 1_000_000

-- window = 60.0
abbrev pub window : ℕ
window = 60 * second

abbrev pub rate_counter_max_keys : ℕ
rate_counter_max_keys = 10_000

pub data RedisReply : Type 0 where
  no_client : RedisReply
  redis_error : RedisReply
  counted : ℕ → RedisReply

pub record RateLimitResult : Type 0 where
  pub allowed : Bool
  pub remaining : ℕ
  pub reset_epoch : ℕ

abbrev pub history : ℕ → Keyed (List ℕ) → List ℕ
history key counters = elim (lookup key counters) [ none ↦ [] | some ts ↦ ts ]

-- del _rate_counters[next(iter(_rate_counters))], past the maximum.
abbrev pub evict_oldest {ℓ} : {V : Type ℓ} → ℕ → Keyed V → Keyed V
evict_oldest most counters = if ltb most (length counters) then drop 1 counters else counters

unfoldable pub check_in_process : ℕ → ℕ → ℕ → Keyed (List ℕ) → RateLimitResult × Keyed (List ℕ)
check_in_process now key limit counters =
    let reset = (now + window) / second in
    let recent = select (λ t. ltb (now - t) window) (history key counters) in
    if leb limit (length recent)
    then (
      record { allowed = false; remaining = 0; reset_epoch = reset },
      upsert key recent counters,
    )
    else (let longer = recent ++ now ∷ [] in
        (
          record { allowed = true; remaining = limit - length longer; reset_epoch = reset },
          evict_oldest rate_counter_max_keys (upsert key longer counters),
        ))

unfoldable pub check_rate_limit :
    RedisReply → ℕ → ℕ → ℕ → Keyed (List ℕ) → RateLimitResult × Keyed (List ℕ)
unfolding check_in_process
check_rate_limit (counted count) now key limit counters = (
  record {
    allowed = ltb count limit;
    remaining = limit - count - 1;
    reset_epoch = (now + window) / second;
  },
  counters,
)
check_rate_limit no_client now key limit counters = check_in_process now key limit counters
check_rate_limit redis_error now key limit counters = check_in_process now key limit counters

-- A request, and the requests that a process lets in, newest first, over a run without Redis.
pub record Request : Type 0 where
  pub time : ℕ
  pub key : ℕ
  pub limit : ℕ

unfoldable pub serve : List Request → Keyed (List ℕ) → List Request → List Request × Keyed (List ℕ)
unfolding check_rate_limit
serve [] counters admitted = (admitted, counters)
serve (r ∷ rs) counters admitted =
    let (result, counters') = check_rate_limit no_client r.time r.key r.limit counters in
    serve rs counters' (if result.allowed then r ∷ admitted else admitted)

-- _enforce_rate_limit: the headers of the 429, without those of the caller; `none` lets the request in.
pub record TooMany : Type 0 where
  pub limit : ℕ
  pub remaining : ℕ
  pub reset : ℕ
  pub retry_after : ℕ

unfoldable pub enforce_rate_limit :
    RedisReply → ℕ → ℕ → ℕ → Keyed (List ℕ) → Option TooMany × Keyed (List ℕ)
unfolding check_rate_limit
enforce_rate_limit reply now key limit counters =
    let (result, counters') = check_rate_limit reply now key limit counters in
    (
      if result.allowed
          then none
          else some (record {
            limit = limit;
            remaining = result.remaining;
            reset = result.reset_epoch;
            retry_after = 60;
          }),
      counters',
    )
