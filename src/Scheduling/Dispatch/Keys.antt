-- ===== src/Scheduling/Dispatch/Keys.antt =====
-- What a statement leaves of the keys that are young, of a schedule that is there.
use teardrop.Common.{
  ==_iff, ==_refl, Bool, Bool-cases, Bool-clash, List, Option-cases, [], ap, arith, false,
  find?-select, inl, inr, ltb, none, not, refl, select, some, subst, sym, true, ℕ, ◌&&◌, ◌*◌, ◌+◌,
  ◌==◌, ◌∙◌, ◌∷◌, ◌≡◌, ◌≤◌,
}
use teardrop.Scheduling.Dispatch.{Reservation, find_key, get_existing_dispatch, reserved_key}
use teardrop.Scheduling.Dispatch.Retention.{delete_event_dispatch_keys, is_deleted_key, is_old_key}
use teardrop.Scheduling.Schedules.{get_scheduled_run}
use teardrop.Scheduling.Schedules.Update.{delete_scheduled_run}
use teardrop.Scheduling.Tables.{
  DispatchKey, IdempotencyKey, ScheduleDb, chain_key, key_eq, run_key, text_key,
}
use teardrop.Schema.{day_us}

pub key_eq→eq : (a b : IdempotencyKey) → key_eq a b ≡ true → a ≡ b
key_eq→eq (text_key a) (text_key b) h = ap text_key ((==_iff a b).0 h)
key_eq→eq (text_key a) (run_key b) h = cc
key_eq→eq (text_key a) (chain_key b) h = cc
key_eq→eq (run_key a) (text_key b) h = cc
key_eq→eq (run_key a) (run_key b) h = ap run_key ((==_iff a b).0 h)
key_eq→eq (run_key a) (chain_key b) h = cc
key_eq→eq (chain_key a) (text_key b) h = cc
key_eq→eq (chain_key a) (run_key b) h = cc
key_eq→eq (chain_key a) (chain_key b) h = ap chain_key ((==_iff a b).0 h)

pub key_eq_refl : (a : IdempotencyKey) → key_eq a a ≡ true
key_eq_refl (text_key a) = ==_refl a
key_eq_refl (run_key a) = ==_refl a
key_eq_refl (chain_key a) = ==_refl a

-- What a step leaves of the keys that are young, of a schedule that is not deleted.
abbrev pub KeepsKey : (horizon : ℕ) → (gone : ℕ → Bool) → ScheduleDb → ScheduleDb → Type 0
KeepsKey horizon gone d d' =
    (schedule : ℕ) (key : IdempotencyKey) (k : DispatchKey)
    → gone schedule ≡ false
    → horizon ≤ k.created_at
    → find_key schedule key d.event_dispatch_keys ≡ some k
    → find_key schedule key d'.event_dispatch_keys ≡ some k

found_key_is :
    (schedule : ℕ) (key : IdempotencyKey) (keys : List DispatchKey) (k : DispatchKey)
    → find_key schedule key keys ≡ some k
    → k.schedule_id ≡ schedule
unfolding find_key
found_key_is schedule key [] k found = cc
found_key_is schedule key (j ∷ rest) k found =
    elim (Bool-cases (j.schedule_id == schedule && key_eq j.idempotency_key key)) [
      | inl e ↦
          let it : some j ≡ some k = rw e at found in
          let it_is : j ≡ k = cc in
          let same : j.schedule_id ≡ schedule =
            (==_iff j.schedule_id schedule).0 (ground (arith, e)) in
          subst (λ x. x.schedule_id ≡ schedule) it_is same
      | inr e ↦ found_key_is schedule key rest k (rw e at found)
    ]

-- A key that is found after the deletion of a schedule is of another schedule.
pub kept_schedule :
    (schedule : ℕ) (key : IdempotencyKey) (id : ℕ) (k : DispatchKey) (keys : List DispatchKey)
    → find_key schedule key (select (λ j. not (j.schedule_id == id)) keys) ≡ some k
    → not (schedule == id) ≡ true
unfolding find_key
kept_schedule schedule key id k [] found = cc
kept_schedule schedule key id k (j ∷ rest) found = elim (Bool-cases (j.schedule_id == id)) [
  | inl e ↦ kept_schedule schedule key id k rest (rw e at found)
  | inr e ↦ elim (Bool-cases (j.schedule_id == schedule && key_eq j.idempotency_key key)) [
    | inl f ↦
        let same : j.schedule_id ≡ schedule =
          (==_iff j.schedule_id schedule).0 (ground (arith, f)) in
        subst (λ i. not (i == id) ≡ true) same (rw e refl)
    | inr f ↦ kept_schedule schedule key id k rest (rw (e, f) at found)
  ]
]

-- The retention finds the key too young.
young_key_stays :
    (now days limit : ℕ) (d : ScheduleDb) (k : DispatchKey) (horizon : ℕ)
    → now ≤ horizon + days * day_us
    → horizon ≤ k.created_at
    → not (is_deleted_key now days limit d k) ≡ true
unfolding is_deleted_key is_old_key
young_key_stays now days limit d k horizon early young =
    let recent : ltb (k.created_at + days * day_us) now ≡ false = ground (arith, early, young) in
    rw recent refl

module _ (horizon : ℕ) (gone : ℕ → Bool) where
  pub same_keys-KeepsKey :
      (d d' : ScheduleDb)
      → d'.event_dispatch_keys ≡ d.event_dispatch_keys
      → KeepsKey horizon gone d d'
  same_keys-KeepsKey d d' same schedule key k spared young found = rw same found

  -- A key that is added is not one that is there.
  pub added_key-KeepsKey :
      (now : ℕ) (q : Reservation) (d d' : ScheduleDb)
      → get_existing_dispatch q.schedule_id q.idempotency_key d ≡ none
      → d'.event_dispatch_keys ≡ reserved_key now q ∷ d.event_dispatch_keys
      → KeepsKey horizon gone d d'
  unfolding get_existing_dispatch find_key
  added_key-KeepsKey now q d d' fresh added schedule key k spared young found =
      elim (Bool-cases (q.schedule_id == schedule && key_eq q.idempotency_key key)) [
        | inl e ↦
            let same : q.schedule_id ≡ schedule =
              (==_iff q.schedule_id schedule).0 (ground (arith, e)) in
            let same_key : q.idempotency_key ≡ key =
              key_eq→eq q.idempotency_key key (ground (arith, e)) in
            let there : get_existing_dispatch schedule key d ≡ none =
              subst (λ x. get_existing_dispatch schedule x d ≡ none) same_key
                (subst (λ i. get_existing_dispatch i q.idempotency_key d ≡ none) same fresh) in
            let there' : get_existing_dispatch schedule key d ≡ some k.run_id =
              rw (found, get_existing_dispatch) refl in
            absurd (let clash : none ≡ some k.run_id = sym there ∙ there' in cc)
        | inr e ↦ rw (added, find_key, e) found
      ]

  pub expired-KeepsKey :
      (now days limit : ℕ) (d : ScheduleDb)
      → now ≤ horizon + days * day_us
      → KeepsKey horizon gone d (delete_event_dispatch_keys now days limit d)
  unfolding delete_event_dispatch_keys find_key
  expired-KeepsKey now days limit d early schedule key k spared young found =
      find?-select (λ j. j.schedule_id == schedule && key_eq j.idempotency_key key)
        (λ j. not (is_deleted_key now days limit d j)) d.event_dispatch_keys {x = k} found
        (young_key_stays now days limit d k horizon early young)

  pub deleted-KeepsKey :
      (id org : ℕ) (d : ScheduleDb)
      → gone id ≡ true
      → KeepsKey horizon gone d (delete_scheduled_run id org d).1
  unfolding delete_scheduled_run find_key
  deleted-KeepsKey id org d is_gone schedule key k spared young found =
      elim (Option-cases (get_scheduled_run id org d)) [
        | inl e ↦ rw (e, delete_scheduled_run) found
        | inr (own, e) ↦
            let apart : (k.schedule_id == id) ≡ false = elim (Bool-cases (k.schedule_id == id)) [
              | inr f ↦ f
              | inl f ↦
                  let at_id : k.schedule_id ≡ id = (==_iff k.schedule_id id).0 f in
                  let at_schedule = found_key_is schedule key d.event_dispatch_keys k found in
                  let same : schedule ≡ id = sym at_schedule ∙ at_id in
                  let spared_id : gone id ≡ false = subst (λ i. gone i ≡ false) same spared in
                  absurd (Bool-clash is_gone spared_id)
            ] in
            rw (e, delete_scheduled_run)
              (find?-select (λ j. j.schedule_id == schedule && key_eq j.idempotency_key key)
                (λ j. not (j.schedule_id == id)) d.event_dispatch_keys {x = k} found
                (rw apart refl))
      ]
