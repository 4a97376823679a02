-- ===== src/Limits/TtlCache/Serving.antt =====
-- What a cache serves after a load.
use teardrop.Common.{
  Bool-cases, Option-cases, arith, false, inl, inr, ltb, none, refl, some, true, ℕ, ◌+◌, ◌<◌, ◌||◌,
  ◌∙◌, ◌≡◌,
}
use teardrop.Limits.TtlCache.{
  Cache, Call, Functions, answer, get, get_in_process, invalidate, is_fresh, no_redis, refresh,
  reset, write_through,
}

module _ {ℓ κ} {T : Type ℓ} {Raw : Type κ} where
  get-none :
      (f : Functions T Raw) (k : Call T Raw) (c : Cache T Raw)
      → k.read ≡ no_redis
      → get f k c ≡ get_in_process f k c
  unfolding get
  get-none f k c alone = rw (alone, get) refl

  -- A load that may be cached.
  get-loads :
      (f : Functions T Raw) (k : Call T Raw) (c : Cache T Raw) (v : T)
      → k.read ≡ no_redis
      → (is_fresh k.now c || is_fresh k.locked_at c) ≡ false
      → k.loaded ≡ some (some v)
      → f.cache_when (some v) ≡ true
      → get f k c ≡ (
        answer (some v) true (write_through f k.has_client (some v)),
        record { value = some v; expires = k.loaded_at + f.ttl },
      )
  unfolding get_in_process refresh
  get-loads f k c v alone stale loader cacheable =
      get-none f k c alone ∙ rw (stale, loader, cacheable, get_in_process, refresh) refl

  get-failed :
      (f : Functions T Raw) (k : Call T Raw) (v : T) (e : ℕ)
      → k.read ≡ no_redis
      → k.loaded ≡ none
      → ((get f k (record { value = some v; expires = e })).0.result ≡ some v)
        × ((get f k (record { value = some v; expires = e })).1
            ≡ record { value = some v; expires = e })
  unfolding get_in_process refresh
  get-failed f k v e alone loader =
      rw (get-none f k (record { value = some v; expires = e }) alone)
        (elim (Bool-cases (ltb k.now e || ltb k.locked_at e)) [
          | inl fresh ↦ rw (fresh, get_in_process) (refl, refl)
          | inr stale ↦ rw (stale, loader, get_in_process, refresh) (refl, refl)
        ])

  refresh_loads :
      (f : Functions T Raw) (k : Call T Raw) (c : Cache T Raw) → (refresh f k c).0.loads ≡ true
  unfolding refresh
  refresh_loads f k c = elim (Option-cases k.loaded) [
    | inl raises ↦ rw (raises, refresh) refl
    | inr (v, loader) ↦ elim (Bool-cases (f.cache_when v)) [
      | inl keep ↦ rw (loader, keep, refresh) refl
      | inr drop_it ↦ rw (loader, drop_it, refresh) refl
    ]
  ]

  get-invalidate :
      (f : Functions T Raw) (k : Call T Raw) (c : Cache T Raw)
      → k.read ≡ no_redis
      → (get f k (invalidate true c).1).0.loads ≡ true
  unfolding get_in_process invalidate reset
  get-invalidate f k c alone =
      rw (get-none f k (record { value = none; expires = 0 }) alone)
        (refresh_loads f k (record { value = none; expires = 0 }))

  -- When a call without Redis finds no fresh value and loads one that may be cached, a later call
  -- without Redis answers that value: within the time to live whatever the loader would do, and after
  -- it if the loader raises, and the cache stays as it is. After an invalidation in between, the
  -- later call loads.
  pub get-get :
      (f : Functions T Raw) (k k' : Call T Raw) (c : Cache T Raw) (v : T)
      → k.read ≡ no_redis
      → k'.read ≡ no_redis
      → (is_fresh k.now c || is_fresh k.locked_at c) ≡ false
      → k.loaded ≡ some (some v)
      → f.cache_when (some v) ≡ true
      → let (first, c1) = get f k c in
        let (second_answer, c2) = get f k' c1 in
        ((first.result ≡ some v) × (first.loads ≡ true))
        × (k'.now < k.loaded_at + f.ttl
            → (second_answer.result ≡ some v) × (second_answer.loads ≡ false) × (c2 ≡ c1))
        × (k'.loaded ≡ none → (second_answer.result ≡ some v) × (c2 ≡ c1))
        × ((get f k' (invalidate true c1).1).0.loads ≡ true)
  unfolding get get_in_process refresh invalidate reset
  get-get f k k' c v alone alone' stale loader cacheable =
      rw (get-loads f k c v alone stale loader cacheable) (
        (refl, refl),
        (λ early.
            let fresh : ltb k'.now (k.loaded_at + f.ttl) ≡ true = ground arith in
            rw (get-none f k' (record { value = some v; expires = k.loaded_at + f.ttl }) alone')
              (rw (fresh, get_in_process) (refl, refl, refl))),
        (λ loader'. get-failed f k' v (k.loaded_at + f.ttl) alone' loader'),
        get-invalidate f k' (get f k c).1 alone',
      )
