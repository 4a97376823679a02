-- ===== src/Scheduling/Runner/PostOnce.antt =====
-- A run's text is posted once at most.
use teardrop.Common.{
  ==_iff, Bool, Bool-cases, Keyed, Option, Option-cases, [], arith, count_where, if◌then◌else◌, inl,
  inr, lookup, lookup-update_key, lookup-upsert, none, refl, some, subst, sym, true, update_key,
  upsert, ℕ, ◌==◌, ◌∙◌, ◌≡◌, ◌≤◌,
}
use teardrop.Credit.{Verdict, refused, verified, verify_credit}
use teardrop.Scheduling.Broadcast.{
  RunnerSettings, RunnerState, post_reserved, publish_x_broadcast, record_x_broadcast_tweet,
  reserve_x_broadcast, with_tables, with_tweet,
}
use teardrop.Scheduling.Dispatch.Settle.{record_scheduled_run_result}
use teardrop.Scheduling.Marks.{
  mark_scheduled_run_failed, mark_scheduled_run_skipped, mark_scheduled_run_succeeded,
}
use teardrop.Scheduling.Runner.{
  AgentRun, agent_raised, agent_returned, capacity_refused, is_x_format, mark_run, record_agent_run,
  returned_result, run_and_record, run_min_required, run_status, run_verdict, skipped_result,
}
use teardrop.Scheduling.Schedules.{requeue_scheduled_run_after_capacity}
use teardrop.Scheduling.Tables.{
  RunResult, RunStatus, ScheduleDb, ScheduledRun, XBroadcast, billing_refused, capacity_exhausted,
  is_there,
}
use teardrop.Schema.{Db, OnOk, OnOk->>=, OnOk-returned, ok}

-- How often a run's text was posted.
abbrev pub post_count : ℕ → RunnerState → ℕ
post_count run_id st = count_where (λ sent. sent == run_id) st.posts

-- A run with no reserved slot was not posted, and any other once at most.
abbrev pub PostsReserved : RunnerState → Type 0
PostsReserved st =
    (run_id : ℕ)
    → post_count run_id st ≤ (if is_there (lookup run_id st.tables.x_broadcasts) then 1 else 0)

there_after_update :
    (run_id k : ℕ) (f : XBroadcast → XBroadcast) (t : Keyed XBroadcast)
    → is_there (lookup run_id (update_key k f t)) ≡ is_there (lookup run_id t)
there_after_update run_id k f t = elim (Option-cases (lookup run_id t)) [
  | inl e ↦ elim (Bool-cases (k == run_id)) [
    | inl it ↦ rw (lookup-update_key k run_id f t, it, e) refl
    | inr apart ↦ rw (lookup-update_key k run_id f t, apart, e) refl
  ]
  | inr (b, e) ↦ elim (Bool-cases (k == run_id)) [
    | inl it ↦ rw (lookup-update_key k run_id f t, it, e) refl
    | inr apart ↦ rw (lookup-update_key k run_id f t, apart, e) refl
  ]
]

with_tweet_there :
    (run_id id : ℕ) (tweet : Option ℕ) (d : ScheduleDb)
    → is_there (lookup id (with_tweet run_id tweet d).x_broadcasts)
      ≡ is_there (lookup id d.x_broadcasts)
unfolding with_tweet record_x_broadcast_tweet
with_tweet_there run_id id none d = refl
with_tweet_there run_id id (some tweet) d =
    there_after_update id run_id (λ b. record b { tweet_id = some tweet }) d.x_broadcasts

there_after_upsert :
    (run_id id : ℕ) (b : XBroadcast) (t : Keyed XBroadcast)
    → is_there (lookup id (upsert run_id b t))
      ≡ (if run_id == id then true else is_there (lookup id t))
there_after_upsert run_id id b t = ground (arith, lookup-upsert run_id id b t)

post_reserved-PostsReserved :
    (run_id schedule org : ℕ) (tweet : Option ℕ) (st : RunnerState)
    → PostsReserved st
    → PostsReserved
        (post_reserved run_id tweet (reserve_x_broadcast run_id schedule org st.tables) st)
unfolding post_reserved reserve_x_broadcast
post_reserved-PostsReserved run_id schedule org tweet st reserved =
    let t = st.tables.x_broadcasts in
    let b : XBroadcast = record { schedule_id = schedule; org_id = org; tweet_id = none } in
    let d = record st.tables { x_broadcasts = upsert run_id b t } in
    elim (Option-cases (lookup run_id t)) [
      | inr (found, e) ↦ rw (e, reserve_x_broadcast) reserved
      | inl e ↦
          rw (e, reserve_x_broadcast)
            λ id. elim (Bool-cases (run_id == id)) [
              | inl it ↦
                  let free : lookup id t ≡ none =
                    subst (λ i. lookup i t ≡ none) ((==_iff run_id id).0 it) e in
                  let old : post_count id st ≤ 0 =
                    subst (λ o. post_count id st ≤ (if is_there o then 1 else 0)) free
                      (reserved id) in
                  rw (with_tweet_there run_id id tweet d, there_after_upsert run_id id b t, it)
                    (omega (arith, old))
              | inr apart ↦
                  rw (with_tweet_there run_id id tweet d, there_after_upsert run_id id b t, apart)
                    (omega (arith, reserved id))
            ]
    ]

PostsReserved-same :
    (st st' : RunnerState)
    → st'.posts ≡ st.posts
    → st'.tables.x_broadcasts ≡ st.tables.x_broadcasts
    → PostsReserved st
    → PostsReserved st'
PostsReserved-same st st' same_posts same_slots reserved run_id =
    subst (λ t. post_count run_id st' ≤ (if is_there (lookup run_id t) then 1 else 0))
      (sym same_slots)
      (subst
        (λ p.
          count_where (λ sent. sent == run_id) p
          ≤ (if is_there (lookup run_id st.tables.x_broadcasts) then 1 else 0))
        (sym same_posts) (reserved run_id))

module _ (c : RunnerSettings) (post_text : ℕ → Option ℕ) (tweet : Option ℕ) where
  publish_x_broadcast-PostsReserved :
      (schedule org : ℕ) (stored : RunResult) (st : RunnerState)
      → PostsReserved st
      → PostsReserved (publish_x_broadcast c post_text tweet schedule org stored st)
  unfolding publish_x_broadcast
  publish_x_broadcast-PostsReserved schedule org stored st reserved =
      ground
        (arith, reserved, post_reserved-PostsReserved stored.run_id schedule org tweet st reserved)

  kept_slots-PostsReserved :
      (st : RunnerState) (d : ScheduleDb)
      → d.x_broadcasts ≡ st.tables.x_broadcasts
      → PostsReserved st
      → PostsReserved (record st { tables = d })
  kept_slots-PostsReserved st d same = PostsReserved-same st (record st { tables = d }) refl same

  record_result_slots :
      (r : RunResult) (d : ScheduleDb)
      → OnOk (λ out. out.1.x_broadcasts ≡ d.x_broadcasts) (record_scheduled_run_result r d)
  unfolding record_scheduled_run_result
  record_result_slots r d = ground arith

  mark_run_slots :
      (now limit schedule : ℕ) (status : RunStatus) (d : ScheduleDb)
      → (mark_run now limit schedule status d).x_broadcasts ≡ d.x_broadcasts
  unfolding mark_run mark_scheduled_run_succeeded mark_scheduled_run_failed
  mark_run_slots now limit schedule status d = ground arith

  record_agent_run-PostsReserved :
      (now schedule run_id : ℕ) (row : ScheduledRun) (agent : AgentRun) (st : RunnerState)
      → PostsReserved st
      → OnOk
          (λ out. PostsReserved out.1)
          (record_agent_run c post_text tweet now schedule run_id row agent st)
  unfolding record_agent_run requeue_scheduled_run_after_capacity
  record_agent_run-PostsReserved now schedule run_id row agent_raised st reserved = tt
  record_agent_run-PostsReserved now schedule run_id row capacity_refused st reserved =
      let r = skipped_result now schedule row.org_id run_id capacity_exhausted in
      OnOk->>= (λ out. out.1.x_broadcasts ≡ st.tables.x_broadcasts) (λ out. PostsReserved out.1)
        (record_scheduled_run_result r st.tables) _ (record_result_slots r st.tables)
        λ (stored, d) same.
          kept_slots-PostsReserved st (requeue_scheduled_run_after_capacity now schedule d) same
            reserved
  record_agent_run-PostsReserved now schedule run_id row (agent_returned state output cost error) st
        reserved =
      let r = returned_result now schedule run_id row (run_status state) output cost error in
      let limit = c.scheduled_runs_max_consecutive_failures in
      OnOk->>= (λ out. out.1.x_broadcasts ≡ st.tables.x_broadcasts) (λ out. PostsReserved out.1)
        (record_scheduled_run_result r st.tables) _ (record_result_slots r st.tables)
        λ (stored, d) same.
          let marked = record st { tables = mark_run now limit schedule (run_status state) d } in
          let kept : PostsReserved marked =
            kept_slots-PostsReserved st (mark_run now limit schedule (run_status state) d)
              (mark_run_slots now limit schedule (run_status state) d ∙ same) reserved in
          elim (Bool-cases (is_x_format row.callback_format)) [
            | inl e ↦
                rw e (publish_x_broadcast-PostsReserved schedule row.org_id stored marked kept)
            | inr e ↦ rw e kept
          ]

  run_verdict-PostsReserved :
      (now schedule run_id : ℕ) (row : ScheduledRun) (agent : AgentRun) (verdict : Verdict)
      (st : RunnerState)
      → PostsReserved st
      → OnOk
          (λ out. PostsReserved out.1)
          (run_verdict c post_text tweet now schedule run_id row agent verdict st)
  unfolding run_verdict mark_scheduled_run_skipped
  run_verdict-PostsReserved now schedule run_id row agent verified st reserved =
      record_agent_run-PostsReserved now schedule run_id row agent st reserved
  run_verdict-PostsReserved now schedule run_id row agent (refused reason) st reserved =
      let r = skipped_result now schedule row.org_id run_id (billing_refused reason) in
      OnOk->>= (λ out. out.1.x_broadcasts ≡ st.tables.x_broadcasts) (λ out. PostsReserved out.1)
        (record_scheduled_run_result r st.tables) _ (record_result_slots r st.tables)
        λ (stored, d) same.
          kept_slots-PostsReserved st (mark_scheduled_run_skipped now schedule d) same reserved

-- What happens between two posts: a run, whatever its settings, its agent and the answer of the X API,
-- or any write that leaves the reserved slots alone.
pub data RunStep : RunnerState → RunnerState → Type 0 where
  runs :
      (c : RunnerSettings) (post_text : ℕ → Option ℕ) (tweet : Option ℕ) (is_byok : Bool)
      (run_price : Option ℕ) (now schedule run_id : ℕ) (row : ScheduledRun) (agent : AgentRun)
      (db : Db) {r : RunResult} {st st' : RunnerState}
      → run_and_record c post_text tweet is_byok run_price now schedule run_id row agent db st
        ≡ ok (r, st')
      → RunStep st st'
  writes :
      (d : ScheduleDb) {st : RunnerState}
      → d.x_broadcasts ≡ st.tables.x_broadcasts
      → RunStep st (with_tables st d)

pub data RunSteps : RunnerState → RunnerState → Type 0 where
  no_runs : {st : RunnerState} → RunSteps st st
  then_run : {st st' st'' : RunnerState} → RunSteps st st' → RunStep st' st'' → RunSteps st st''

RunSteps-PostsReserved :
    {st st' : RunnerState} → RunSteps st st' → PostsReserved st → PostsReserved st'
unfolding run_and_record
RunSteps-PostsReserved no_runs reserved = reserved
RunSteps-PostsReserved
      (then_run steps
        (runs c post_text tweet is_byok run_price now schedule run_id row agent db {st = st} made))
      reserved =
    let verdict =
      verify_credit c.billing now row.org_id (run_min_required c is_byok run_price) none db in
    OnOk-returned (λ out. PostsReserved out.1)
      (run_verdict c post_text tweet now schedule run_id row agent verdict st) made
      (run_verdict-PostsReserved c post_text tweet now schedule run_id row agent verdict st
        (RunSteps-PostsReserved steps reserved))
RunSteps-PostsReserved (then_run steps (writes d {st} same)) reserved =
    PostsReserved-same st (with_tables st d) refl same (RunSteps-PostsReserved steps reserved)

none_posted : (st : RunnerState) → st.posts ≡ [] → PostsReserved st
none_posted st empty run_id = rw empty (omega arith)

-- However many runs are made from a state in which nothing was posted, with other writes between them,
-- no run's text is posted twice.
pub RunSteps-post_count :
    (st st' : RunnerState) (run_id : ℕ)
    → st.posts ≡ []
    → RunSteps st st'
    → post_count run_id st' ≤ 1
RunSteps-post_count st st' run_id empty steps =
    ground (arith, RunSteps-PostsReserved steps (none_posted st empty) run_id)
