-- ===== src/Limits/Slots/Invariant.antt =====
-- Everything that can happen to the run slots of a process, in any order.
use teardrop.Common.{
  ==_refl, Bool-cases, List, Option-cases, [], arith, count_where, false, get_elem?,
  get_elem?-append, get_elem?-modify, get_elem?-some, if◌then◌else◌, inl, inr, leb, length,
  length-append, length-modify, ltb, modify, none, not, refl, some, suc, sym, true, zero, ℕ, ◌&&◌,
  ◌++◌, ◌+◌, ◌<◌, ◌==◌, ◌∙◌, ◌∷◌, ◌≡◌, ◌≤◌, ◌⊎◌,
}
use teardrop.Ledger.{counts}
use teardrop.Limits.Slots.{
  Lease, Limiter, Process, Step, acquires, add_active, drop_active, init_agent_run_limiter, inits,
  mark_released, release_lease, release_limiter, releases, try_acquire, try_acquire_agent_run_slot,
}

-- The unreleased leases of a limiter.
abbrev pub in_use : ℕ → List Lease → ℕ
in_use l es = count_where (λ e. e.limiter == l && not e.released) es

-- The limiter's counter is the number of its unreleased leases, and at most its limit.
abbrev pub Counted : Process → Type 0
Counted p =
    (l : ℕ) (a : Limiter)
    → get_elem? p.limiters l ≡ some a
    → (a.active ≡ in_use l p.leases) × (a.active ≤ a.limit) × (0 < a.limit)

-- Every lease belongs to a limiter of the process, and so does `_limiter` point to one.
abbrev pub Owned : Process → Type 0
Owned p =
    (p.current < length p.limiters)
    × ((i : ℕ) (e : Lease) → get_elem? p.leases i ≡ some e → e.limiter < length p.limiters)

in_use-append :
    (l : ℕ) (es : List Lease) (e : Lease)
    → in_use l (es ++ e ∷ []) ≡ in_use l es + in_use l (e ∷ [])
in_use-append l [] e = omega arith
in_use-append l (x ∷ es) e = omega (arith, in_use-append l es e)

pub in_use-modify :
    (l i : ℕ) (es : List Lease) (e : Lease)
    → get_elem? es i ≡ some e
    → e.released ≡ false
    → in_use l (modify i mark_released es) + (if e.limiter == l then 1 else 0) ≡ in_use l es
in_use-modify l i [] e at live = cc
in_use-modify l zero (x ∷ es) e at live =
    let same : x ≡ e = cc in
    let x_live : x.released ≡ false = rw same live in rw (sym same) (ground arith)
in_use-modify l (suc i) (x ∷ es) e at live = ground (arith, in_use-modify l i es e at live)

-- The state after a lease on limiter `l` is taken.
abbrev pub taken : ℕ → Process → Process
taken l p = record p {
  limiters = modify l add_active p.limiters;
  leases = p.leases ++ record { limiter = l; released = false } ∷ [];
}

pub try_acquire-free :
    (l : ℕ) (p : Process) (a : Limiter)
    → get_elem? p.limiters l ≡ some a
    → a.active < a.limit
    → try_acquire l p ≡ (some (length p.leases), taken l p)
unfolding try_acquire
try_acquire-free l p a at free =
    let room : leb a.limit a.active ≡ false = ground arith in rw (at, room, try_acquire) refl

-- An attempt either finds no room and changes nothing, or takes a lease.
pub try_acquire-cases :
    (l : ℕ) (p : Process)
    → (try_acquire l p ≡ (none, p))
      ⊎ ((a : Limiter) × (get_elem? p.limiters l ≡ some a)
          × (a.active < a.limit)
          × (try_acquire l p ≡ (some (length p.leases), taken l p)))
unfolding try_acquire
try_acquire-cases l p = elim (Option-cases (get_elem? p.limiters l)) [
  | inl missing ↦ inl (rw (missing, try_acquire) refl)
  | inr (a, at) ↦ elim (Bool-cases (leb a.limit a.active)) [
    | inl full ↦ inl (rw (at, full, try_acquire) refl)
    | inr free ↦ inr (a, at, ground arith, try_acquire-free l p a at (ground arith))
  ]
]

taken-Counted :
    (l : ℕ) (p : Process) (b : Limiter)
    → get_elem? p.limiters l ≡ some b
    → b.active < b.limit
    → Counted p
    → Counted (taken l p)
taken-Counted l p b at free counted j a at_j =
    let more = in_use-append j p.leases (record { limiter = l; released = false }) in
    let there = sym (get_elem?-modify l j add_active p.limiters) ∙ at_j in
    elim (Bool-cases (l == j)) [
      | inl same ↦
          let e : j ≡ l = ground arith in
          let at_b : get_elem? p.limiters j ≡ some b = rw e at in
          let a_is : add_active b ≡ a = cc (rw (same, at_b) at there) in
          let (counts, within, pos) = counted j b at_b in
          rw (sym a_is) (ground (arith, more), omega arith, pos)
      | inr differ ↦
          let old : get_elem? p.limiters j ≡ some a = ground (arith, there) in
          let (counts, within, pos) = counted j a old in (ground arith, within, pos)
    ]

taken-Owned : (l : ℕ) (p : Process) → l < length p.limiters → Owned p → Owned (taken l p)
taken-Owned l p inside (current, owned) =
    let size = length-modify l add_active p.limiters in
    (
      omega arith,
      λ i e at_i.
          let there =
            sym (get_elem?-append i p.leases (record { limiter = l; released = false })) ∙ at_i in
          elim (Bool-cases (length p.leases == i)) [
            | inl last ↦
                let is_new : record { limiter = l; released = false } ≡ e = cc (rw last at there) in
                rw (sym is_new, size) inside
            | inr earlier ↦ rw size (owned i e (rw earlier at there))
          ],
    )

-- The state after lease `i`, on limiter `l`, is given back.
abbrev pub given_back : ℕ → ℕ → Process → Process
given_back i l p = record p {
  leases = modify i mark_released p.leases;
  limiters = modify l drop_active p.limiters;
}

-- The release of a lease changes nothing, if it was released before, and else gives it back: with
-- the invariants it does not raise.
pub release_lease-cases :
    (i : ℕ) (p : Process) (e : Lease)
    → get_elem? p.leases i ≡ some e
    → Counted p
    → Owned p
    → ((e.released ≡ true) × (release_lease i p ≡ some p))
      ⊎ ((e.released ≡ false) × (release_lease i p ≡ some (given_back i e.limiter p)))
unfolding release_lease release_limiter
release_lease-cases i p e at counted (current, owned) = elim (Bool-cases e.released) [
  | inl done ↦ inl (done, rw (at, done, release_lease) refl)
  | inr live ↦
      let (a, at_l) = get_elem?-some e.limiter p.limiters (owned i e at) in
      let (counts, within, pos) = counted e.limiter a at_l in
      let fewer = in_use-modify e.limiter i p.leases e at live in
      let own = ==_refl e.limiter in
      let positive : (a.active == 0) ≡ false = ground (arith, fewer, own) in
      inr (live, rw (at, live, at_l, positive, release_lease, release_limiter) refl)
]

given_back-Counted :
    (i : ℕ) (p : Process) (e : Lease)
    → get_elem? p.leases i ≡ some e
    → e.released ≡ false
    → Counted p
    → Counted (given_back i e.limiter p)
given_back-Counted i p e at live counted j a at_j =
    let less = in_use-modify j i p.leases e at live in
    let there = sym (get_elem?-modify e.limiter j drop_active p.limiters) ∙ at_j in
    elim (Bool-cases (e.limiter == j)) [
      | inr differ ↦
          let old : get_elem? p.limiters j ≡ some a = rw differ at there in
          let (counts, within, pos) = counted j a old in (ground (arith, less), within, pos)
      | inl same ↦ elim (Option-cases (get_elem? p.limiters j)) [
        | inl missing ↦ cc (rw (same, missing) at there)
        | inr (b, at_b) ↦
            let a_is : drop_active b ≡ a = cc (rw (same, at_b) at there) in
            let (counts, within, pos) = counted j b at_b in
            rw (sym a_is) (ground (arith, less), omega arith, pos)
      ]
    ]

given_back-Owned : (i l : ℕ) (p : Process) → Owned p → Owned (given_back i l p)
given_back-Owned i l p (current, owned) =
    let size = length-modify l drop_active p.limiters in
    (
      rw size current,
      λ j e at_j.
          let there = sym (get_elem?-modify i j mark_released p.leases) ∙ at_j in
          elim (Bool-cases (i == j)) [
            | inr differ ↦ rw size (owned j e (rw differ at there))
            | inl same ↦ elim (Option-cases (get_elem? p.leases j)) [
              | inl missing ↦ cc (rw (same, missing) at there)
              | inr (b, at_b) ↦
                  let e_is : mark_released b ≡ e = cc (rw (same, at_b) at there) in
                  rw (sym e_is, size) (owned j b at_b)
            ]
          ],
    )

-- The state after a new limiter.
abbrev renewed : ℕ → Process → Process
renewed limit p = record p {
  limiters = p.limiters ++ record { limit = limit; active = 0 } ∷ [];
  current = length p.limiters;
}

-- No lease is on a limiter that does not exist.
in_use-unowned :
    (l : ℕ) (es : List Lease)
    → ((i : ℕ) (e : Lease) → get_elem? es i ≡ some e → e.limiter < l)
    → in_use l es ≡ 0
in_use-unowned l [] owned = refl
in_use-unowned l (x ∷ es) owned =
    let first = owned 0 x refl in
    let rest = in_use-unowned l es (λ i e at. owned (suc i) e at) in ground (arith, first, rest)

renewed-Counted :
    (limit : ℕ) (p : Process) → 0 < limit → Counted p → Owned p → Counted (renewed limit p)
renewed-Counted limit p pos counted (current, owned) j a at_j =
    let there = sym (get_elem?-append j p.limiters (record { limit = limit; active = 0 })) ∙ at_j in
    elim (Bool-cases (length p.limiters == j)) [
      | inr earlier ↦ counted j a (rw earlier at there)
      | inl last ↦
          let a_is : record { limit = limit; active = 0 } ≡ a = cc (rw last at there) in
          let e : j ≡ length p.limiters = ground arith in
          let none_yet = in_use-unowned (length p.limiters) p.leases owned in
          rw (sym a_is, e, none_yet) (refl, omega arith, pos)
    ]

renewed-Owned : (limit : ℕ) (p : Process) → Owned p → Owned (renewed limit p)
renewed-Owned limit p (current, owned) =
    let size = length-append p.limiters (record { limit = limit; active = 0 } ∷ []) in
    (omega arith, λ i e at. omega (arith, owned i e at, size))

pub init-cases :
    (limit : ℕ) (p q : Process)
    → init_agent_run_limiter limit p ≡ some q
    → (0 < limit) × (renewed limit p ≡ q)
unfolding init_agent_run_limiter
init-cases limit p q h = elim (Bool-cases (ltb limit 1)) [
  | inl bad ↦ cc (rw bad at h)
  | inr good ↦ (ground arith, cc (rw good at h))
]

pub Step-invariant : {p q : Process} → Step p q → Counted p → Owned p → Counted q × Owned q
unfolding try_acquire_agent_run_slot release_lease
Step-invariant (acquires p) counted owned = elim (try_acquire-cases p.current p) [
  | inl full ↦ rw full (counted, owned)
  | inr (a, at, free, takes) ↦
      rw takes (taken-Counted p.current p a at free counted, taken-Owned p.current p owned.0 owned)
]
Step-invariant {p} {q} (releases i h) counted owned = elim (Option-cases (get_elem? p.leases i)) [
  | inl missing ↦ cc (rw (missing, release_lease) at h)
  | inr (e, at) ↦ elim (release_lease-cases i p e at counted owned) [
    | inl (done, same) ↦ let is_q : p ≡ q = cc in rw (sym is_q) (counted, owned)
    | inr (live, gives) ↦
        let is_q : given_back i e.limiter p ≡ q = cc in
        rw (sym is_q)
          (given_back-Counted i p e at live counted, given_back-Owned i e.limiter p owned)
  ]
]
Step-invariant {p} {q} (inits limit h) counted owned =
    let (pos, is_q) = init-cases limit p q h in
    rw (sym is_q) (renewed-Counted limit p pos counted owned, renewed-Owned limit p owned)
