-- ===== src/Limits/TtlCache.antt =====
-- TTLCache of teardrop/cache.py, for one cache: its functions and its time to live are parameters,
-- and so is what Redis and the loader answer when they are asked. The lock is free when `get` takes
-- it; what another task stored before that is the cache that the second test reads.
pub mod Serving
use teardrop.Common.{Bool, Option, false, if◌then◌else◌, ltb, none, some, true, ℕ, ◌&&◌, ◌+◌, ◌||◌}

module _ {ℓ κ} (T : Type ℓ) (Raw : Type κ) where
  pub record Cache : Type ℓ where
    pub value : Option T
    pub expires : ℕ

  -- A read of the key in Redis.
  pub data Read : Type κ where
    no_redis : Read
    read_error : Read
    absent : Read
    present : Raw → Read

  pub record Functions : Type (ℓ ⊔ κ) where
    pub ttl : ℕ
    pub serialize : T → Raw
    pub deserialize : Raw → Option (Option T)
    pub cache_when : Option T → Bool
    pub stale_default : Option T

  -- What one call may meet: the loader's answer (`none` is an exception), the clock at the two tests
  -- and after the load, and whether Redis has a client for the write.
  pub record Call : Type (ℓ ⊔ κ) where
    pub read : Read
    pub now : ℕ
    pub locked_at : ℕ
    pub loaded : Option (Option T)
    pub loaded_at : ℕ
    pub has_client : Bool

  -- The answer, whether the loader ran, and the SETEX that was sent.
  pub record Answer : Type (ℓ ⊔ κ) where
    pub result : Option T
    pub loads : Bool
    pub setex : Option (ℕ × Raw)

abbrev pub has_value {ℓ} : {T : Type ℓ} → Option T → Bool
has_value none = false
has_value (some v) = true

module _ {ℓ κ} {T : Type ℓ} {Raw : Type κ} where
  -- self._value is not None and time.monotonic() < self._expires
  abbrev pub is_fresh : ℕ → Cache T Raw → Bool
  is_fresh now c = has_value c.value && ltb now c.expires

  abbrev pub answer : Option T → Bool → Option (ℕ × Raw) → Answer T Raw
  answer v loads setex = record { result = v; loads = loads; setex = setex }

  -- The write to Redis: only of a value, and only with a client.
  abbrev pub write_through : Functions T Raw → Bool → Option T → Option (ℕ × Raw)
  write_through f has_client none = none
  write_through f has_client (some v) = if has_client then some (f.ttl, f.serialize v) else none

  -- Under the lock, past the second test.
  unfoldable pub refresh : Functions T Raw → Call T Raw → Cache T Raw → Answer T Raw × Cache T Raw
  refresh f k c = elim k.loaded [
    | none ↦ (answer (elim c.value [ none ↦ f.stale_default | some v ↦ some v ]) true none, c)
    | some v ↦
        if f.cache_when v
        then (
          answer v true (write_through f k.has_client v),
          record { value = v; expires = k.loaded_at + f.ttl },
        )
        else (answer v true none, c)
  ]

  unfoldable pub get_in_process :
      Functions T Raw → Call T Raw → Cache T Raw → Answer T Raw × Cache T Raw
  unfolding refresh
  get_in_process f k c =
      if is_fresh k.now c || is_fresh k.locked_at c
      then (answer c.value false none, c)
      else refresh f k c

  unfoldable pub get : Functions T Raw → Call T Raw → Cache T Raw → Answer T Raw × Cache T Raw
  unfolding get_in_process
  get f k c = elim k.read [
    | present raw ↦ elim (f.deserialize raw) [
      | none ↦ get_in_process f k c
      | some v ↦ (answer v false none, c)
    ]
    | _ ↦ get_in_process f k c
  ]

  -- reset, and invalidate with the DEL that it sends.
  unfoldable pub reset : Cache T Raw → Cache T Raw
  reset c = record { value = none; expires = 0 }

  unfoldable pub invalidate : Bool → Cache T Raw → Bool × Cache T Raw
  unfolding reset
  invalidate has_client c = (has_client, reset c)
