-- ===== src/Tests/Limits.antt =====
-- The run slots, the request windows and the lockout on small states.
use teardrop.Common.{
  Keyed, List, Option, [], arith, false, get_elem?, length, none, refl, some, true, ℕ, ◌*◌, ◌++◌,
  ◌∷◌, ◌≡◌, ◌≤◌, ◌⊎◌,
}
use teardrop.Limits.Lockout.{Failures, check_auth_lockout, open_window, record_auth_failure}
use teardrop.Limits.Lockout.Threshold.{record_failures}
use teardrop.Limits.Slots.{
  Lease, Process, Reach, Steps, acquires, capacity_error, here, imported, init_agent_run_limiter,
  inits, later, limit_agent_runs, raised, then_step, try_acquire, try_acquire_agent_run_slot,
}
use teardrop.Limits.Slots.Admission.{Reach-invariant, limit_agent_runs-releases}
use teardrop.Limits.Slots.Invariant.{Counted, Owned}
use teardrop.Limits.TtlCache.{Cache, Call, Functions, has_value, no_redis}
use teardrop.Limits.Window.{Request, check_in_process, check_rate_limit, second, serve}
use teardrop.Limits.Window.Bound.{InOrder, in_window, serve-within_limit}
use teardrop.Limits.Window.Reference.{serve-sliding_window, sliding_window}

-- A process with one slot, taken.
abbrev one_slot : Process
one_slot = record {
  limiters = record { limit = 16; active = 0 } ∷ record { limit = 1; active = 0 } ∷ [];
  leases = [];
  current = 1;
}

abbrev busy : Process
busy = record {
  limiters = record { limit = 16; active = 0 } ∷ record { limit = 1; active = 1 } ∷ [];
  leases = record { limiter = 1; released = false } ∷ [];
  current = 1;
}

one_slot-Reach : Reach one_slot
unfolding init_agent_run_limiter
one_slot-Reach = later imported (inits 1 refl)

busy-Reach : Reach busy
unfolding try_acquire_agent_run_slot try_acquire
busy-Reach = later one_slot-Reach (acquires one_slot)

busy_refuses : (try_acquire_agent_run_slot busy).0 ≡ none
unfolding try_acquire_agent_run_slot try_acquire
busy_refuses = refl

Reach-invariant_example : Counted busy × Owned busy
Reach-invariant_example = Reach-invariant busy-Reach

-- A body that starts a new limiter while it runs, and then raises.
abbrev renewing : Process → Option ℕ × Process
renewing p = (
  none,
  (record p {
    limiters = p.limiters ++ record { limit = 5; active = 0 } ∷ [];
    current = length p.limiters;
  }),
)

renewing-Steps : (p : Process) → Steps p (renewing p).1
unfolding init_agent_run_limiter
renewing-Steps p = then_step here (inits 5 refl)

limit_agent_runs-releases_example :
    (limit_agent_runs renewing one_slot ≡ (capacity_error, one_slot))
    ⊎ ((i : ℕ) × (p1 : Process) × (q : Process) × (e : Lease) × (try_acquire_agent_run_slot one_slot
          ≡ (some i, p1))
        × (limit_agent_runs renewing one_slot ≡ (raised, q))
        × Reach q
        × (get_elem? q.leases i ≡ some e)
        × (e.released ≡ true))
limit_agent_runs-releases_example =
    limit_agent_runs-releases renewing one_slot one_slot-Reach renewing-Steps

-- Four requests of a key that may make two in a minute.
abbrev requests : List Request
requests =
    record { time = 0; key = 1; limit = 2 }
    ∷ record { time = second; key = 1; limit = 2 }
    ∷ record { time = 2 * second; key = 1; limit = 2 }
    ∷ record { time = 60 * second; key = 1; limit = 2 }
    ∷ []

requests-InOrder : InOrder 0 requests
requests-InOrder = (omega arith, (omega arith, (omega arith, (omega arith, tt))))

requests_served : in_window 1 0 (serve requests [] []).0 ≡ 2
unfolding serve check_rate_limit check_in_process
requests_served = refl

serve-within_limit_example : in_window 1 second (serve requests [] []).0 ≤ 2
serve-within_limit_example =
    serve-within_limit 1 2 requests (omega arith, (omega arith, (omega arith, (omega arith, tt))))
      ((λ _. omega arith), ((λ _. omega arith), ((λ _. omega arith), ((λ _. omega arith), tt))))
      (omega arith) second

abbrev failures : Keyed Failures
failures = record_failures 4 300 (0 ∷ second ∷ []) []

locked_out : (check_auth_lockout none (2 * second) 4 2 300 failures).0 ≡ (true, 298)
unfolding check_auth_lockout record_auth_failure open_window
locked_out = refl

serve-sliding_window_example : (serve requests [] []).0 ≡ sliding_window requests []
serve-sliding_window_example = serve-sliding_window requests requests-InOrder (omega arith)

-- A cache of numbers that are written to Redis as they are, for 60 units.
abbrev functions : Functions ℕ ℕ
functions = record {
  ttl = 60;
  serialize = λ v. v;
  deserialize = λ raw. some (some raw);
  cache_when = has_value;
  stale_default = none;
}

abbrev empty_cache : Cache ℕ ℕ
empty_cache = record { value = none; expires = 0 }

abbrev loading : Call ℕ ℕ
loading = record {
  read = no_redis;
  now = 100;
  locked_at = 101;
  loaded = some (some 7);
  loaded_at = 102;
  has_client = false;
}

abbrev failing : Call ℕ ℕ
failing = record loading { now = 150; loaded = none }
