-- ===== src/Limits/Slots.antt =====
-- The run slots of teardrop/concurrency.py. A limiter and a lease are objects: they have an address
-- in the state, and a lease refers to its limiter by address, so that a lease taken before
-- `init_agent_run_limiter` still counts on the limiter that it came from. No operation awaits, so
-- each is one step.
pub mod Invariant
pub mod Admission
use teardrop.Common.{
  Bool, List, Option, [], false, get_elem?, if◌then◌else◌, leb, length, ltb, modify, none, some,
  true, ℕ, ◌++◌, ◌+◌, ◌-◌, ◌==◌, ◌∷◌, ◌≡◌,
}

pub record Limiter : Type 0 where
  pub limit : ℕ
  pub active : ℕ

pub record Lease : Type 0 where
  pub limiter : ℕ
  pub released : Bool

-- `current` is the module's `_limiter`.
pub record Process : Type 0 where
  pub limiters : List Limiter
  pub leases : List Lease
  pub current : ℕ

abbrev pub add_active : Limiter → Limiter
add_active a = record a { active = a.active + 1 }

abbrev pub drop_active : Limiter → Limiter
drop_active a = record a { active = a.active - 1 }

abbrev pub mark_released : Lease → Lease
mark_released e = record e { released = true }

-- _AgentRunLimiter.try_acquire: the address of the new lease.
unfoldable pub try_acquire : ℕ → Process → Option ℕ × Process
try_acquire l p = elim (get_elem? p.limiters l) [
  | none ↦ (none, p)
  | some a ↦ if leb a.limit a.active then (none, p) else (
    some (length p.leases),
    record p {
      limiters = modify l add_active p.limiters;
      leases = p.leases ++ record { limiter = l; released = false } ∷ [];
    },
  )
]

-- _AgentRunLimiter.release; `none` is the RuntimeError.
unfoldable pub release_limiter : ℕ → Process → Option Process
release_limiter l p = elim (get_elem? p.limiters l) [
  | none ↦ none
  | some a ↦
      if a.active == 0 then none else some (record p { limiters = modify l drop_active p.limiters })
]

-- _AgentRunLease.release
unfoldable pub release_lease : ℕ → Process → Option Process
unfolding release_limiter
release_lease i p = elim (get_elem? p.leases i) [
  | none ↦ none
  | some e ↦
      if e.released
      then some p
      else release_limiter e.limiter (record p { leases = modify i mark_released p.leases })
]

-- `none` is the ValueError.
unfoldable pub init_agent_run_limiter : ℕ → Process → Option Process
init_agent_run_limiter limit p =
    if ltb limit 1
    then none
    else some (record p {
      limiters = p.limiters ++ record { limit = limit; active = 0 } ∷ [];
      current = length p.limiters;
    })

unfoldable pub try_acquire_agent_run_slot : Process → Option ℕ × Process
unfolding try_acquire
try_acquire_agent_run_slot p = try_acquire p.current p

-- The process at import: _AgentRunLimiter(16).
abbrev pub at_import : Process
at_import = record { limiters = record { limit = 16; active = 0 } ∷ []; leases = []; current = 0 }

-- What an entry point ends with: its own value or exception, or that of the slot.
pub data Exit {ℓ} (A : Type ℓ) : Type ℓ where
  returned : A → Exit A
  raised : Exit A
  capacity_error : Exit A
  release_error : Exit A

-- The body's own end, unless the release in `finally` raises.
unfoldable pub leave_slot {ℓ} : {R : Type ℓ} → ℕ → Option R × Process → Exit R × Process
unfolding release_lease
leave_slot i (outcome, p) = elim (release_lease i p) [
  | none ↦ (release_error, p)
  | some p' ↦ (elim outcome [ none ↦ raised | some r ↦ returned r ], p')
]

unfoldable pub acquire_agent_run_slot {ℓ} :
    {R : Type ℓ} → (Process → Option R × Process) → Option ℕ × Process → Exit R × Process
acquire_agent_run_slot body (none, p) = (capacity_error, p)
acquire_agent_run_slot body (some i, p) = leave_slot i (body p)

-- A body returns or raises, after any number of steps of its own and of other tasks.
unfoldable pub limit_agent_runs {ℓ} :
    {R : Type ℓ} → (Process → Option R × Process) → Process → Exit R × Process
unfolding acquire_agent_run_slot try_acquire_agent_run_slot
limit_agent_runs body p = acquire_agent_run_slot body (try_acquire_agent_run_slot p)

-- One step of any task of the process.
pub data Step : Process → Process → Type 0 where
  acquires : (p : Process) → Step p (try_acquire_agent_run_slot p).1
  releases : {p q : Process} (i : ℕ) → release_lease i p ≡ some q → Step p q
  inits : {p q : Process} (limit : ℕ) → init_agent_run_limiter limit p ≡ some q → Step p q

pub data Reach : Process → Type 0 where
  imported : Reach at_import
  later : {p q : Process} → Reach p → Step p q → Reach q

-- Any number of steps, of any tasks.
pub data Steps : Process → Process → Type 0 where
  here : {p : Process} → Steps p p
  then_step : {p q r : Process} → Steps p q → Step q r → Steps p r
