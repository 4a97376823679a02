-- ===== src/Scheduling/Broadcast.antt =====
-- scheduling/runner.py, _publish_x_broadcast: the post of a completed run on X, reserved first. The text
-- of a post is made by `post_text` (_x_post_text), and `tweet` is what the X API answers.
use teardrop.Common.{
  Bool, List, Option, false, if◌then◌else◌, lookup, none, not, some, true, update_key, upsert, ℕ,
  ◌&&◌, ◌==◌, ◌∷◌,
}
use teardrop.Scheduling.Tables.{RunResult, ScheduleDb, is_completed_run, is_there}
use teardrop.Schema.{Settings}

pub record RunnerSettings : Type 0 where
  pub billing : Settings
  pub credit_min_run_reserve_usdc : ℕ
  pub scheduled_runs_max_consecutive_failures : ℕ
  pub x_broadcast_enabled : Bool
  pub x_broadcast_configured : Bool
  pub x_broadcast_org_id : ℕ

-- The tables, with the runs whose text was posted, the last one first.
pub record RunnerState : Type 0 where
  pub tables : ScheduleDb
  pub posts : List ℕ

-- _publish_x_broadcast

abbrev pub with_tables : RunnerState → ScheduleDb → RunnerState
with_tables st d = record st { tables = d }

-- reserve_x_broadcast
unfoldable pub reserve_x_broadcast : ℕ → ℕ → ℕ → ScheduleDb → Bool × ScheduleDb
reserve_x_broadcast run_id schedule org d = elim (lookup run_id d.x_broadcasts) [
  | some _ ↦ (false, d)
  | none ↦ (
    true,
    record d {
      x_broadcasts =
          upsert run_id (record { schedule_id = schedule; org_id = org; tweet_id = none })
            d.x_broadcasts;
    },
  )
]

-- record_x_broadcast_tweet
unfoldable pub record_x_broadcast_tweet : ℕ → ℕ → ScheduleDb → ScheduleDb
record_x_broadcast_tweet run_id tweet d = record d {
  x_broadcasts = update_key run_id (λ b. record b { tweet_id = some tweet }) d.x_broadcasts;
}

unfoldable pub with_tweet : ℕ → Option ℕ → ScheduleDb → ScheduleDb
unfolding record_x_broadcast_tweet
with_tweet run_id none d = d
with_tweet run_id (some tweet) d = record_x_broadcast_tweet run_id tweet d

-- What follows the reservation: the post, and the tweet's id if the API has answered one.
unfoldable pub post_reserved : ℕ → Option ℕ → Bool × ScheduleDb → RunnerState → RunnerState
unfolding with_tweet
post_reserved run_id tweet (false, d) st = st
post_reserved run_id tweet (true, d) st = record st {
  tables = with_tweet run_id tweet d;
  posts = run_id ∷ st.posts;
}

unfoldable pub publish_x_broadcast :
    RunnerSettings
    → (post_text : ℕ → Option ℕ) → (tweet : Option ℕ) → (schedule org : ℕ) → RunResult
    → RunnerState
    → RunnerState
unfolding post_reserved reserve_x_broadcast
publish_x_broadcast c post_text tweet schedule org stored st =
    if not (c.x_broadcast_enabled && c.x_broadcast_configured)
    then st
    else if not (c.x_broadcast_org_id == org)
    then st
    else if not (is_completed_run stored.status)
    then st
    else if not (is_there (post_text stored.output_text))
    then st
    else post_reserved stored.run_id tweet
        (reserve_x_broadcast stored.run_id schedule org st.tables) st
