-- ===== src/Scheduling/Events/Admission.antt =====
-- When the webhook hands a run on.
use teardrop.Common.{
  ==_refl, Bool, Option, Option-cases, ap, arith, false, if◌then◌else◌, inl, inr, lookup,
  lookup-upsert, none, not, refl, some, true, upsert, ℕ, ◌*◌, ◌+◌, ◌∙◌, ◌∷◌, ◌≡◌, ◌⊎◌,
}
use teardrop.Scheduling.Dispatch.{
  LeaseOutcome, Reservation, find_key, insert_reservation, lease_accepted, lease_duplicate,
  lease_saturated, reserve_event_dispatch_lease, reserved_key, reserved_lease,
}
use teardrop.Scheduling.Dispatch.AtMostOnce.{
  AddsKey, accepted_reservation-AddsKey, reserved_key-found,
}
use teardrop.Scheduling.Events.{
  EventAnswer, EventRequest, EventSettings, EventState, answer_reservation, dispatch_event,
  dispatch_found, dispatch_was_accepted, event_reservation, existing_dispatch, is_object, is_secret,
  lease_seconds_of, request_key, reservation_key, reserve_event, tables_of,
}
use teardrop.Scheduling.Schedules.{get_event_trigger_for_dispatch}
use teardrop.Scheduling.Tables.{
  DispatchKey, DispatchLease, IdempotencyKey, ScheduleDb, ScheduledRun, is_there, lease_reserved,
}
use teardrop.Schema.{OnOk, Result, err, ok, second_us}

abbrev pub is_accepted : EventAnswer → Bool
is_accepted (dispatch_was_accepted n) = true
is_accepted _ = false

-- The answer is 'accepted' and one run is handed on, or neither.
abbrev pub IsHandedOn :
    (now : ℕ)
    → EventSettings
    → (run_id schedule : ℕ) → ScheduledRun
    → IdempotencyKey
    → EventState
    → EventAnswer × EventState
    → Type 0
IsHandedOn now c run_id schedule row key st (answered, st') =
    ((is_accepted answered ≡ false) × (st'.spawned ≡ st.spawned))
    ⊎ ((answered ≡ dispatch_was_accepted run_id)
        × (st'.spawned
            ≡ record { schedule_id = schedule; run_id = run_id; chain_id = run_id; hop_index = 0 }
              ∷ st.spawned)
        × ((l : DispatchLease) × (lookup run_id (tables_of st').event_dispatch_leases ≡ some l)
            × (l.schedule_id ≡ schedule)
            × (l.status ≡ lease_reserved)
            × (l.lease_expires_at ≡ now + lease_seconds_of c * second_us))
        × ((k : DispatchKey) × (find_key schedule key (tables_of st').event_dispatch_keys ≡ some k)
            × (k.run_id ≡ run_id)
            × (k.created_at ≡ now)))

abbrev Leased : (now : ℕ) → Reservation → LeaseOutcome × ScheduleDb → Type 0
Leased now q (out, d) =
    (n : ℕ)
    → out ≡ lease_accepted n
    → (n ≡ q.run_id) × (lookup q.run_id d.event_dispatch_leases ≡ some (reserved_lease now q))

insert_reservation-Leased :
    (now : ℕ) (q : Reservation) (d : ScheduleDb) → OnOk (Leased now q) (insert_reservation now q d)
unfolding insert_reservation
insert_reservation-Leased now q d =
    let stored = lookup-upsert q.run_id q.run_id (reserved_lease now q) d.event_dispatch_leases in
    let found : lookup q.run_id (upsert q.run_id (reserved_lease now q) d.event_dispatch_leases)
        ≡ some (reserved_lease now q) =
      stored ∙ (rw (==_refl q.run_id) refl) in
    ground (arith, found)

reserve-Leased :
    (now : ℕ) (q : Reservation) (d : ScheduleDb)
    → OnOk (Leased now q) (reserve_event_dispatch_lease now q d)
unfolding reserve_event_dispatch_lease
reserve-Leased now q d = ground (arith, insert_reservation-Leased now q d)

answer_reservation-IsHandedOn :
    (now : ℕ) (c : EventSettings) (schedule : ℕ) (row : ScheduledRun) (key : IdempotencyKey)
    (run_id : ℕ) (reply : Result (LeaseOutcome × ScheduleDb)) (st : EventState)
    → OnOk (Leased now (event_reservation c schedule row.org_id key run_id run_id 0)) reply
    → OnOk
        (AddsKey now (event_reservation c schedule row.org_id key run_id run_id 0) (tables_of st))
        reply
    → IsHandedOn now c run_id schedule row key st (answer_reservation schedule row.org_id reply st)
unfolding answer_reservation
answer_reservation-IsHandedOn now c schedule row key run_id (err why) st leased_run added_key =
    inl (refl, refl)
answer_reservation-IsHandedOn now c schedule row key run_id (ok (lease_saturated n, d)) st
      leased_run added_key =
    inl (refl, refl)
answer_reservation-IsHandedOn now c schedule row key run_id (ok (lease_duplicate n, d)) st
      leased_run added_key =
    inl (refl, refl)
answer_reservation-IsHandedOn now c schedule row key run_id (ok (lease_accepted n, d)) st leased_run
      added_key =
    let (same, found) = leased_run n refl in
    let q = event_reservation c schedule row.org_id key run_id run_id 0 in
    inr (
      ap dispatch_was_accepted same,
      ap
          (λ i.
            record { schedule_id = schedule; run_id = i; chain_id = i; hop_index = 0 } ∷ st.spawned)
          same,
      (reserved_lease now q, found, refl, refl, refl),
      (
        reserved_key now q,
        reserved_key-found now q d (tables_of st).event_dispatch_keys
            (added_key (ap lease_accepted same)),
        refl,
        refl,
      ),
    )

reserve_event-IsHandedOn :
    (c : EventSettings) (now run_id schedule : ℕ) (row : ScheduledRun) (key : Option IdempotencyKey)
    (st : EventState)
    → IsHandedOn now c run_id schedule row
        (reservation_key run_id key)
        st
        (reserve_event c now run_id schedule row key st)
unfolding reserve_event
reserve_event-IsHandedOn c now run_id schedule row key st =
    let k = reservation_key run_id key in
    let q = event_reservation c schedule row.org_id k run_id run_id 0 in
    elim (Option-cases (existing_dispatch schedule key (tables_of st))) [
      | inr (n, e) ↦ rw (e, reserve_event) (inl (refl, refl))
      | inl e ↦
          rw (e, reserve_event)
            (answer_reservation-IsHandedOn now c schedule row k run_id
              (reserve_event_dispatch_lease now q (tables_of st)) st
              (reserve-Leased now q (tables_of st))
              (accepted_reservation-AddsKey now q (tables_of st)))
    ]

-- What an accepted dispatch shows of its request.
abbrev pub IsAdmitted :
    (hash : ℕ → ℕ) → (render : ℕ → EventRequest → Option ℕ) → EventRequest → ScheduledRun → Type 0
IsAdmitted hash render q row =
    (is_secret hash q.trigger_secret row.secret_hash ≡ true)
    × (row.enabled ≡ true)
    × (q.is_within_rate ≡ true)
    × (is_there (render row.prompt q) ≡ true)

abbrev pub IsDispatch :
    EventSettings
    → (hash : ℕ → ℕ) → (render : ℕ → EventRequest → Option ℕ) → (now run_id : ℕ) → EventRequest
    → EventState
    → EventAnswer × EventState
    → Type 0
IsDispatch c hash render now run_id q st reply =
    ((is_accepted reply.0 ≡ false) × (reply.1.spawned ≡ st.spawned))
    ⊎ ((schedule : ℕ) × (row : ScheduledRun) × (get_event_trigger_for_dispatch q.trigger_token
            (tables_of st)
          ≡ some (schedule, row))
        × IsAdmitted hash render q row
        × IsHandedOn now c run_id schedule row (reservation_key run_id (request_key q)) st reply)

if_IsDispatch :
    (c : EventSettings) (hash : ℕ → ℕ) (render : ℕ → EventRequest → Option ℕ) (now run_id : ℕ)
    (q : EventRequest) (st : EventState) (test : Bool) (a b : EventAnswer × EventState)
    → (is_accepted a.0 ≡ false) × (a.1.spawned ≡ st.spawned)
    → (test ≡ true → IsDispatch c hash render now run_id q st b)
    → IsDispatch c hash render now run_id q st (if not test then a else b)
if_IsDispatch c hash render now run_id q st true a b none_handed next = next refl
if_IsDispatch c hash render now run_id q st false a b none_handed next = inl none_handed

dispatch_found-IsDispatch :
    (c : EventSettings) (hash : ℕ → ℕ) (render : ℕ → EventRequest → Option ℕ) (now run_id : ℕ)
    (q : EventRequest) (found : Option (ℕ × ScheduledRun)) (st : EventState)
    → get_event_trigger_for_dispatch q.trigger_token (tables_of st) ≡ found
    → q.is_within_rate ≡ true
    → IsDispatch c hash render now run_id q st (dispatch_found c hash render now run_id q found st)
unfolding dispatch_found
dispatch_found-IsDispatch c hash render now run_id q none st found_is rate = inl (refl, refl)
dispatch_found-IsDispatch c hash render now run_id q (some (schedule, row)) st found_is rate =
    let guard = if_IsDispatch c hash render now run_id q st in
    guard (is_secret hash q.trigger_secret row.secret_hash) _ _ (refl, refl)
      λ secret.
        guard row.enabled _ _ (refl, refl)
          λ on.
            guard q.is_small_enough _ _ (refl, refl)
              λ _.
                guard (is_object q) _ _ (refl, refl)
                  λ _.
                    guard q.is_key_short_enough _ _ (refl, refl)
                      λ _.
                        guard (is_there (render row.prompt q)) _ _ (refl, refl)
                          λ rendered. inr (
                            schedule,
                            row,
                            found_is,
                            (secret, on, rate, rendered),
                            reserve_event-IsHandedOn c now run_id schedule row (request_key q) st,
                          )

-- The webhook answers 'accepted' only when a trigger has the token, the request's secret is the
-- trigger's, the trigger is enabled, the rate limits admit the request and its prompt is not blank;
-- then one run is handed on, with the drawn id at hop 0 of its own chain, and its lease is reserved for
-- the time of a run, under the request's key if it has one. Whatever else it answers, no run is handed on.
pub dispatch_event-IsDispatch :
    (c : EventSettings) (hash : ℕ → ℕ) (render : ℕ → EventRequest → Option ℕ) (now run_id : ℕ)
    (q : EventRequest) (st : EventState)
    → IsDispatch c hash render now run_id q st (dispatch_event c hash render now run_id q st)
unfolding dispatch_event
dispatch_event-IsDispatch c hash render now run_id q st =
    let guard = if_IsDispatch c hash render now run_id q st in
    guard c.event_triggers_enabled _ _ (refl, refl)
      λ on.
        guard q.is_within_rate _ _ (refl, refl)
          λ rate.
            dispatch_found-IsDispatch c hash render now run_id q
              (get_event_trigger_for_dispatch q.trigger_token (tables_of st)) st refl rate
