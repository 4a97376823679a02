-- ===== src/Limits/Slots/Admission.antt =====
-- What the run slots promise in every reachable state.
use teardrop.Common.{
  ==_refl, Bool-cases, Option, Option-cases, [], ap, arith, false, get_elem?, get_elem?-modify,
  get_elem?-some, inl, inr, leb, length, length-append, length-modify, none, refl, some, subst, suc,
  sym, true, zero, ℕ, ◌-◌, ◌<◌, ◌==◌, ◌↔◌, ◌∙◌, ◌∷◌, ◌≡◌, ◌≤◌, ◌⊎◌,
}
use teardrop.Ledger.{counts}
use teardrop.Limits.Slots.{
  Lease, Limiter, Process, Reach, Step, Steps, acquire_agent_run_slot, acquires, at_import,
  capacity_error, drop_active, here, imported, inits, later, leave_slot, limit_agent_runs,
  mark_released, raised, release_lease, release_limiter, releases, returned, then_step, try_acquire,
  try_acquire_agent_run_slot,
}
use teardrop.Limits.Slots.Invariant.{
  Counted, Owned, Step-invariant, given_back, in_use, in_use-modify, init-cases,
  release_lease-cases, taken, try_acquire-cases, try_acquire-free,
}

import-Counted : Counted at_import
import-Counted zero a at =
    let a_is : record { limit = 16; active = 0 } ≡ a = cc in
    rw (sym a_is) (refl, omega arith, omega arith)
import-Counted (suc l) a at = cc

-- In every state that a process can reach, every limiter counts exactly its unreleased leases and
-- has at most as many as its positive limit; every lease is on a limiter of the process, and the
-- current limiter exists.
pub Reach-invariant : {p : Process} → Reach p → Counted p × Owned p
Reach-invariant imported = (import-Counted, (omega arith, λ i e at. cc))
Reach-invariant (later r st) =
    let (counted, owned) = Reach-invariant r in Step-invariant st counted owned

mark_released_same : (e : Lease) → e.released ≡ true → e ≡ mark_released e
mark_released_same e done = ap (λ b. record e { released = b }) done

-- In every reachable state, the release of a lease returns, marks the lease as released, and a
-- second release changes nothing.
pub release_lease_idem :
    (p : Process) (i : ℕ) (e : Lease)
    → Reach p
    → get_elem? p.leases i ≡ some e
    → (q : Process) × (release_lease i p ≡ some q)
      × (get_elem? q.leases i ≡ some (mark_released e))
      × (release_lease i q ≡ some q)
unfolding release_lease
release_lease_idem p i e r at =
    let (counted, owned) = Reach-invariant r in
    elim (release_lease-cases i p e at counted owned) [
      | inl (done, same) ↦ (p, same, at ∙ ap some (mark_released_same e done), same)
      | inr (live, gives) ↦
          let q = given_back i e.limiter p in
          let at_q = get_elem?-modify i i mark_released p.leases in
          let now = rw (==_refl i, at) at at_q in (q, gives, now, rw (now, release_lease) refl)
    ]

-- In every reachable state, a slot is refused exactly when as many leases of the current limiter are
-- unreleased as its limit.
pub try_acquire_agent_run_slot-full :
    (p : Process) (a : Limiter)
    → Reach p
    → get_elem? p.limiters p.current ≡ some a
    → ((try_acquire_agent_run_slot p).0 ≡ none) ↔ (in_use p.current p.leases ≡ a.limit)
unfolding try_acquire_agent_run_slot try_acquire
try_acquire_agent_run_slot-full p a r at =
    let (counted, owned) = Reach-invariant r in
    let (counts, within, pos) = counted p.current a at in
    elim (Bool-cases (leb a.limit a.active)) [
      | inl full ↦
          let counts_full : in_use p.current p.leases ≡ a.limit = ground arith in
          rw (at, full, try_acquire_agent_run_slot, try_acquire) (λ _. counts_full, λ _. refl)
      | inr free ↦
          rw (at, free, try_acquire_agent_run_slot, try_acquire)
            (λ h. cc, λ h. absurd (ground arith))
    ]

-- When a lease of the current limiter is given back in a reachable state, the next attempt is let in.
pub release_lease-try_acquire_agent_run_slot :
    (p : Process) (i : ℕ) (e : Lease)
    → Reach p
    → get_elem? p.leases i ≡ some e
    → e.released ≡ false
    → e.limiter ≡ p.current
    → (q : Process) × (lease : ℕ) × (release_lease i p ≡ some q)
      × ((try_acquire_agent_run_slot q).0 ≡ some lease)
unfolding try_acquire_agent_run_slot
release_lease-try_acquire_agent_run_slot p i e r at live mine =
    let (counted, owned) = Reach-invariant r in
    elim (release_lease-cases i p e at counted owned) [
      | inl (done, same) ↦ cc
      | inr (_, gives) ↦
          let q = given_back i e.limiter p in
          let (a, at_l) = get_elem?-some p.current p.limiters owned.0 in
          let (counts, within, pos) = counted p.current a at_l in
          let fewer = in_use-modify p.current i p.leases e at live in
          let own = ==_refl p.current in
          let at_q = get_elem?-modify e.limiter p.current drop_active p.limiters in
          let same : (e.limiter == p.current) ≡ true = ground (arith, mine) in
          let now = rw (same, at_l) at at_q in
          let free : a.active - 1 < a.limit = omega arith in
          (
            q,
            length q.leases,
            gives,
            ap (λ t. t.0) (try_acquire-free p.current q (drop_active a) now free),
          )
    ]

release_lease-length :
    (i : ℕ) (p q : Process) → release_lease i p ≡ some q → length p.leases ≤ length q.leases
unfolding release_lease release_limiter
release_lease-length i p q h = elim (Option-cases (get_elem? p.leases i)) [
  | inl missing ↦ cc (rw (missing, release_lease) at h)
  | inr (e, at) ↦ elim (Bool-cases e.released) [
    | inl done ↦
        let is_q : p ≡ q = cc (rw (at, done, release_lease) at h) in rw (sym is_q) (omega arith)
    | inr live ↦ elim (Option-cases (get_elem? p.limiters e.limiter)) [
      | inl missing ↦ cc (rw (at, live, release_lease, missing, release_limiter) at h)
      | inr (a, at_l) ↦ elim (Bool-cases (a.active == 0)) [
        | inl idle ↦ cc (rw (at, live, at_l, idle, release_lease, release_limiter) at h)
        | inr busy ↦
            let is_q : given_back i e.limiter p ≡ q =
              cc (rw (at, live, at_l, busy, release_lease, release_limiter) at h) in
            rw (sym is_q) (omega (arith, length-modify i mark_released p.leases))
      ]
    ]
  ]
]

Step-length : {p q : Process} → Step p q → length p.leases ≤ length q.leases
unfolding try_acquire_agent_run_slot release_lease
Step-length (acquires p) = elim (try_acquire-cases p.current p) [
  | inl full ↦ rw full (omega arith)
  | inr (a, at, free, takes) ↦
      let more = length-append p.leases (record { limiter = p.current; released = false } ∷ []) in
      rw takes (omega arith)
]
Step-length {p} {q} (releases i h) = release_lease-length i p q h
Step-length {p} {q} (inits limit h) =
    let (pos, is_q) = init-cases limit p q h in rw (sym is_q) (omega arith)

Steps-length : {p q : Process} → Steps p q → length p.leases ≤ length q.leases
Steps-length here = omega arith
Steps-length (then_step s st) = omega (arith, Steps-length s, Step-length st)

Steps-Reach : {p q : Process} → Reach p → Steps p q → Reach q
Steps-Reach r here = r
Steps-Reach r (then_step s st) = later (Steps-Reach r s) st

-- An entry point under `limit_agent_runs`, in a reachable state, whose body makes any steps in any
-- order with those of other tasks, ends in a reachable state, either with no slot and the body not
-- run, or with the body's own value or exception and its lease released.
pub limit_agent_runs-releases {ℓ} :
    {R : Type ℓ} (body : Process → Option R × Process) (p : Process)
    → Reach p
    → ((p1 : Process) → Steps p1 (body p1).1)
    → (limit_agent_runs body p ≡ (capacity_error, p))
      ⊎ ((i : ℕ) × (p1 : Process) × (q : Process) × (e : Lease) × (try_acquire_agent_run_slot p
            ≡ (some i, p1))
          × (limit_agent_runs body p
              ≡ (elim (body p1).0 [ none ↦ raised | some x ↦ returned x ], q))
          × Reach q
          × (get_elem? q.leases i ≡ some e)
          × (e.released ≡ true))
unfolding limit_agent_runs acquire_agent_run_slot leave_slot try_acquire_agent_run_slot
limit_agent_runs-releases body p r steps = elim (try_acquire-cases p.current p) [
  | inl full ↦ inl (ap (acquire_agent_run_slot body) full)
  | inr (a, at, free, takes) ↦
      let p1 = taken p.current p in
      let r1 : Reach p1 = later r (subst (λ t. Step p t.1) takes (acquires p)) in
      let p2 = (body p1).1 in
      let r2 : Reach p2 = Steps-Reach r1 (steps p1) in
      let more = length-append p.leases (record { limiter = p.current; released = false } ∷ []) in
      let (e, at_i) =
        get_elem?-some (length p.leases) p2.leases (omega (arith, Steps-length (steps p1))) in
      let (q, gives, marked, _) = release_lease_idem p2 (length p.leases) e r2 at_i in
      inr (
        length p.leases,
        p1,
        q,
        mark_released e,
        takes,
        ap (acquire_agent_run_slot body) takes ∙ rw (gives, leave_slot) refl,
        later r2 (releases (length p.leases) gives),
        marked,
        refl,
      )
]
