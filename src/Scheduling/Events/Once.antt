-- ===== src/Scheduling/Events/Once.antt =====
-- A key of a request starts one run.
use teardrop.Common.{
  Bool, Option, ap, arith, false, if◌then◌else◌, inl, inr, not, refl, some, subst, sym, true, ℕ,
  ◌∙◌, ◌≡◌, ◌⊎◌,
}
use teardrop.Scheduling.Dispatch.{find_key, get_existing_dispatch}
use teardrop.Scheduling.Dispatch.AtMostOnce.{LeaseSteps-KeepsKey, found_key-existing}
use teardrop.Scheduling.Dispatch.Steps.{LeaseSteps}
use teardrop.Scheduling.Events.{
  EventAnswer, EventRequest, EventSettings, EventState, dispatch_event, dispatch_found,
  dispatch_was_accepted, dispatch_was_duplicate, existing_dispatch, http_error, is_object,
  is_secret, request_key, reservation_key, reserve_event, tables_of,
}
use teardrop.Scheduling.Events.Admission.{IsDispatch, IsHandedOn, dispatch_event-IsDispatch}
use teardrop.Scheduling.Schedules.{get_event_trigger_for_dispatch}
use teardrop.Scheduling.Tables.{DispatchKey, IdempotencyKey, ScheduledRun, is_there}

-- An answer that hands no run on, and that names the first run if it is a duplicate's.
abbrev pub IsRepeat : ℕ → EventState → EventAnswer × EventState → Type 0
IsRepeat run_id st reply =
    (reply.1.spawned ≡ st.spawned)
    × ((reply.0 ≡ dispatch_was_duplicate run_id) ⊎ ((code : ℕ) × (reply.0 ≡ http_error code)))

reserve_event-IsRepeat :
    (c : EventSettings) (now run_id' schedule run_id : ℕ) (row : ScheduledRun)
    (key : IdempotencyKey) (st : EventState)
    → get_existing_dispatch schedule key (tables_of st) ≡ some run_id
    → IsRepeat run_id st (reserve_event c now run_id' schedule row (some key) st)
unfolding reserve_event existing_dispatch
reserve_event-IsRepeat c now run_id' schedule run_id row key st found =
    rw (found, reserve_event, existing_dispatch) (refl, inl refl)

if_IsRepeat :
    (run_id : ℕ) (st : EventState) (test : Bool) (a b : EventAnswer × EventState)
    → IsRepeat run_id st a
    → IsRepeat run_id st b
    → IsRepeat run_id st (if not test then a else b)
if_IsRepeat run_id st true a b repeat_a repeat_b = repeat_b
if_IsRepeat run_id st false a b repeat_a repeat_b = repeat_a

dispatch_found-IsRepeat :
    (c : EventSettings) (hash : ℕ → ℕ) (render : ℕ → EventRequest → Option ℕ)
    (now run_id' schedule run_id : ℕ) (row : ScheduledRun) (q : EventRequest) (key : IdempotencyKey)
    (st : EventState)
    → request_key q ≡ some key
    → get_existing_dispatch schedule key (tables_of st) ≡ some run_id
    → IsRepeat run_id st (dispatch_found c hash render now run_id' q (some (schedule, row)) st)
unfolding dispatch_found
dispatch_found-IsRepeat c hash render now run_id' schedule run_id row q key st key_is found =
    let guard = if_IsRepeat run_id st in
    let error : (code : ℕ) → IsRepeat run_id st (http_error code, st) =
      λ code. (refl, inr (code, refl)) in
    guard (is_secret hash q.trigger_secret row.secret_hash) _ _ (refl, inr (401, refl))
      (guard row.enabled _ _ (error 404) (
        guard q.is_small_enough _ _ (error 413) (
          guard (is_object q) _ _ (error 400) (
            guard q.is_key_short_enough _ _ (error 422) (
              guard (is_there (render row.prompt q)) _ _ (error 422) (
                subst (λ k. IsRepeat run_id st (reserve_event c now run_id' schedule row k st))
                  (sym key_is)
                  (reserve_event-IsRepeat c now run_id' schedule run_id row key st found)))))))

-- The key of the request is there, made at `now` for the run.
abbrev HasKey : (now run_id schedule : ℕ) → IdempotencyKey → EventState → Type 0
HasKey now run_id schedule key st =
    (k : DispatchKey) × (find_key schedule key (tables_of st).event_dispatch_keys ≡ some k)
    × (k.run_id ≡ run_id)
    × (k.created_at ≡ now)

handed_key :
    (now : ℕ) (c : EventSettings) (run_id schedule : ℕ) (row : ScheduledRun) (key : IdempotencyKey)
    (st st1 : EventState)
    → IsHandedOn now c run_id schedule row key st (dispatch_was_accepted run_id, st1)
    → HasKey now run_id schedule key st1
handed_key now c run_id schedule row key st st1 (inl (not_accepted, _)) = cc
handed_key now c run_id schedule row key st st1 (inr (_, _, _, found)) = found

accepted_key :
    (c : EventSettings) (hash : ℕ → ℕ) (render : ℕ → EventRequest → Option ℕ) (now run_id : ℕ)
    (q : EventRequest) (st st1 : EventState) (schedule : ℕ) (row : ScheduledRun)
    (key : IdempotencyKey)
    → IsDispatch c hash render now run_id q st (dispatch_was_accepted run_id, st1)
    → get_event_trigger_for_dispatch q.trigger_token (tables_of st) ≡ some (schedule, row)
    → request_key q ≡ some key
    → HasKey now run_id schedule key st1
accepted_key c hash render now run_id q st st1 schedule row key (inl (not_accepted, _)) found
      key_is =
    cc
accepted_key c hash render now run_id q st st1 schedule row key
      (inr (schedule0, row0, found0, _, handed)) found key_is =
    let same : some (schedule0, row0) ≡ some (schedule, row) = sym found0 ∙ found in
    let same_id : schedule0 ≡ schedule = cc in
    let there =
      handed_key now c run_id schedule0 row0 (reservation_key run_id (request_key q)) st st1
        handed in
    subst (λ i. HasKey now run_id i key st1) same_id
      (subst (λ k. HasKey now run_id schedule0 (reservation_key run_id k) st1) key_is there)

-- When the webhook has accepted a request with an idempotency key at `now`, then a later request with
-- the same key that reaches the same trigger hands no run on: it gets an error, or the answer
-- 'duplicate' with the first run's id. In between are any steps of the workers on the keys and the
-- leases and any writes to other tables, where each deletion by the retention has its cut-off at `now`
-- or before, and the trigger is not among the schedules that were deleted.
pub dispatch_event-once :
    (c : EventSettings) (hash : ℕ → ℕ) (render : ℕ → EventRequest → Option ℕ) (now run_id : ℕ)
    (gone : ℕ → Bool) (q : EventRequest) (st st1 st2 : EventState) (now' run_id' schedule : ℕ)
    (row row' : ScheduledRun) (q' : EventRequest) (key : IdempotencyKey)
    → dispatch_event c hash render now run_id q st ≡ (dispatch_was_accepted run_id, st1)
    → LeaseSteps now gone (tables_of st1) (tables_of st2)
    → gone schedule ≡ false
    → request_key q ≡ some key
    → request_key q' ≡ some key
    → get_event_trigger_for_dispatch q.trigger_token (tables_of st) ≡ some (schedule, row)
    → get_event_trigger_for_dispatch q'.trigger_token (tables_of st2) ≡ some (schedule, row')
    → IsRepeat run_id st2 (dispatch_event c hash render now' run_id' q' st2)
unfolding dispatch_event
dispatch_event-once c hash render now run_id gone q st st1 st2 now' run_id' schedule row row' q' key
      made steps spared key_is key_is' found found' =
    let (k, first, run_is, made_at) : HasKey now run_id schedule key st1 =
      accepted_key c hash render now run_id q st st1 schedule row key
        (subst (IsDispatch c hash render now run_id q st) made
          (dispatch_event-IsDispatch c hash render now run_id q st))
        found key_is in
    let kept = LeaseSteps-KeepsKey steps schedule key k spared (omega (arith, made_at)) first in
    let again : get_existing_dispatch schedule key (tables_of st2) ≡ some run_id =
      found_key-existing schedule key k (tables_of st2) kept ∙ ap some run_is in
    let guard = if_IsRepeat run_id st2 in
    guard c.event_triggers_enabled _ _ (refl, inr (404, refl))
      (guard q'.is_within_rate _ _ (refl, inr (429, refl))
        (subst (λ f. IsRepeat run_id st2 (dispatch_found c hash render now' run_id' q' f st2))
          (sym found')
          (dispatch_found-IsRepeat c hash render now' run_id' schedule run_id row' q' key st2
            key_is' again)))
