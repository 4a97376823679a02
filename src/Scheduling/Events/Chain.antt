-- ===== src/Scheduling/Events/Chain.antt =====
-- What a run that is finished may start.
use teardrop.Common.{
  Bool-cases, Option, Option-cases, ap, arith, inl, inr, ltb, none, refl, some, true, ℕ, ◌+◌, ◌∷◌,
  ◌≡◌, ◌≤◌, ◌⊎◌,
}
use teardrop.Scheduling.Dispatch.{
  LeaseOutcome, Reservation, insert_reservation, lease_accepted, lease_duplicate, lease_saturated,
  reserve_event_dispatch_lease,
}
use teardrop.Scheduling.Events.{EventSettings, EventState, event_reservation, tables_of}
use teardrop.Scheduling.Events.Background.{
  answer_hop, dispatch_chain_child, dispatch_hop, dispatch_next, is_chain_target, skip_chain,
}
use teardrop.Scheduling.Schedules.{get_scheduled_run}
use teardrop.Scheduling.Tables.{RunResult, ScheduleDb, ScheduledRun, chain_key, is_completed_run}
use teardrop.Schema.{OnOk, Result, err, ok}

-- The next hop: no run more, or one that the limit admits, on an enabled event trigger of the org, in
-- the same chain, with a lease in the state 'reserved'.
abbrev pub IsNextHop :
    EventSettings
    → (now child_run_id : ℕ) → ScheduledRun
    → (chain hop : ℕ) → EventState
    → EventState
    → Type 0
IsNextHop c now child_run_id row chain hop st st' =
    (st'.spawned ≡ st.spawned)
    ⊎ ((child : ℕ) × (target : ScheduledRun) × (row.next_trigger_id ≡ some child)
        × (get_scheduled_run child row.org_id (tables_of st) ≡ some target)
        × (is_chain_target row.org_id target ≡ true)
        × (hop + 1 ≤ c.event_chain_max_hops)
        × (st'.spawned
            ≡ record {
              schedule_id = child;
              run_id = child_run_id;
              chain_id = chain;
              hop_index = hop + 1;
            }
              ∷ st.spawned))

abbrev IsAnswered : (child chain hop child_run_id : ℕ) → EventState → EventState → Type 0
IsAnswered child chain hop child_run_id st st' =
    (st'.spawned ≡ st.spawned)
    ⊎ (st'.spawned
        ≡ record { schedule_id = child; run_id = child_run_id; chain_id = chain; hop_index = hop }
          ∷ st.spawned)

pub reserve_accepts_own :
    (now : ℕ) (q : Reservation) (d : ScheduleDb)
    → OnOk
        (λ out. (run_id : ℕ) → out.0 ≡ lease_accepted run_id → run_id ≡ q.run_id)
        (reserve_event_dispatch_lease now q d)
unfolding reserve_event_dispatch_lease insert_reservation
reserve_accepts_own now q d = ground arith

answer_hop-IsAnswered :
    (schedule org child : ℕ) (r : RunResult) (chain hop child_run_id : ℕ)
    (reply : Result (LeaseOutcome × ScheduleDb)) (st : EventState)
    → OnOk (λ out. (run_id : ℕ) → out.0 ≡ lease_accepted run_id → run_id ≡ child_run_id) reply
    → IsAnswered child chain hop child_run_id st
        (answer_hop schedule org child r chain hop reply st)
unfolding answer_hop skip_chain
answer_hop-IsAnswered schedule org child r chain hop child_run_id (err why) st own = inl refl
answer_hop-IsAnswered schedule org child r chain hop child_run_id (ok (lease_saturated n, d)) st
      own =
    inl refl
answer_hop-IsAnswered schedule org child r chain hop child_run_id (ok (lease_duplicate n, d)) st
      own =
    inl refl
answer_hop-IsAnswered schedule org child r chain hop child_run_id (ok (lease_accepted n, d)) st
      own =
    inr (
      ap
        (λ i.
          record { schedule_id = child; run_id = i; chain_id = chain; hop_index = hop }
          ∷ st.spawned)
        (own n refl))

dispatch_hop-IsNextHop :
    (c : EventSettings) (now child_run_id schedule : ℕ) (row : ScheduledRun) (child : ℕ)
    (r : RunResult) (chain hop : ℕ) (st : EventState)
    → row.next_trigger_id ≡ some child
    → hop + 1 ≤ c.event_chain_max_hops
    → IsNextHop c now child_run_id row chain hop st
        (dispatch_hop c now child_run_id schedule row.org_id child r chain (hop + 1) st)
unfolding dispatch_hop skip_chain
dispatch_hop-IsNextHop c now child_run_id schedule row child r chain hop st next within =
    elim (Option-cases (get_scheduled_run child row.org_id (tables_of st))) [
      | inl e ↦ rw (e, dispatch_hop) (inl refl)
      | inr (target, e) ↦ elim (Bool-cases (is_chain_target row.org_id target)) [
        | inr e2 ↦ rw (e, dispatch_hop, e2) (inl refl)
        | inl e2 ↦
            let q =
              event_reservation c child row.org_id (chain_key r.run_id) child_run_id chain
                (hop + 1) in
            let reply = reserve_event_dispatch_lease now q (tables_of st) in
            rw (e, dispatch_hop, e2)
              (elim (answer_hop-IsAnswered schedule row.org_id child r chain (hop + 1) child_run_id
                reply st (reserve_accepts_own now q (tables_of st))) [
                  | inl same ↦ inl same
                  | inr added ↦ inr (child, target, next, e, e2, within, added)
                ])
      ]
    ]

dispatch_next-IsNextHop :
    (c : EventSettings) (now child_run_id schedule : ℕ) (row : ScheduledRun) (next : Option ℕ)
    (r : RunResult) (chain hop : ℕ) (st : EventState)
    → row.next_trigger_id ≡ next
    → IsNextHop c now child_run_id row chain hop st
        (dispatch_next c now child_run_id schedule row.org_id next r chain hop st)
unfolding dispatch_next skip_chain
dispatch_next-IsNextHop c now child_run_id schedule row none r chain hop st next_is = inl refl
dispatch_next-IsNextHop c now child_run_id schedule row (some child) r chain hop st next_is =
    elim (Bool-cases (ltb c.event_chain_max_hops (hop + 1))) [
      | inl e ↦ rw e (inl refl)
      | inr e ↦ rw e (
          dispatch_hop-IsNextHop c now child_run_id schedule row child r chain hop st next_is
            (ground (arith, e)))
    ]

-- When a run is finished, its chain goes on by one run at most: on the enabled event trigger of the
-- same org that the schedule names, in the same chain, and with a hop that the limit admits; otherwise
-- no run is handed on.
pub dispatch_chain_child-IsNextHop :
    (c : EventSettings) (now child_run_id schedule : ℕ) (row : ScheduledRun) (r : RunResult)
    (chain hop : ℕ) (st : EventState)
    → IsNextHop c now child_run_id row chain hop st
        (dispatch_chain_child c now child_run_id schedule row r chain hop st)
unfolding dispatch_chain_child
dispatch_chain_child-IsNextHop c now child_run_id schedule row r chain hop st =
    elim (Bool-cases (is_completed_run r.status)) [
      | inr e ↦ rw e (inl refl)
      | inl e ↦ rw e (
          dispatch_next-IsNextHop c now child_run_id schedule row row.next_trigger_id r chain hop st
            refl)
    ]
