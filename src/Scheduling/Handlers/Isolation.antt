-- ===== src/Scheduling/Handlers/Isolation.antt =====
-- A handler leaves the schedules of other orgs alone.
use teardrop.Common.{Bool, Option, arith, false, lookup, none, refl, some, ℕ, ◌==◌, ◌≡◌}
use teardrop.Scheduling.Handlers.{
  HandlerSettings, after_insert, after_trigger_insert, create_agent_schedule,
  create_event_trigger_for, delete_agent_schedule, delete_event_trigger, rotate_secret,
  run_agent_schedule_now,
}
use teardrop.Scheduling.Handlers.KeptRows.{
  IsKeptRow, KeepsOthers, delete_scheduled_run-KeepsOthers, insert_schedule-KeepsOthers,
  same_runs-KeepsOthers, update_schedule-KeepsOthers, update_scheduled_run-KeepsOthers,
}
use teardrop.Scheduling.Handlers.Patch.{
  PatchBody, patch_agent_schedule, patch_event_trigger, patch_row, patched_schedule,
  patched_trigger, schedule_change, trigger_change,
}
use teardrop.Scheduling.Schedules.{
  create_event_trigger, create_scheduled_run, event_row, interval_row, queue_scheduled_run_now,
  queued_now, rotate_event_trigger_secret, rotated,
}
use teardrop.Scheduling.Schedules.Update.{ScheduleChange}
use teardrop.Scheduling.Tables.{CallbackFormat, ScheduleDb, ScheduledRun, json_format}
use teardrop.Schema.{OnOk, Result, err, ok}

-- What a request with the token of an org does to the tables.
pub data HandlerStep (org : ℕ) : ScheduleDb → ScheduleDb → Type 0 where
  creates :
      (c : HandlerSettings) (is_safe_url : ℕ → Bool) (now new_id user name prompt interval : ℕ)
      (callback_url : Option ℕ) (sink : CallbackFormat) (first_run_at : Option ℕ) (d : ScheduleDb)
      → HandlerStep org d
          (create_agent_schedule c is_safe_url now new_id org user name prompt interval callback_url
            sink first_run_at d).1
  runs_now :
      (c : HandlerSettings) (now id : ℕ) (d : ScheduleDb)
      → HandlerStep org d (run_agent_schedule_now c now id org d).1
  patches :
      (c : HandlerSettings) (is_safe_url : ℕ → Bool) (now id : ℕ) (b : PatchBody) (d : ScheduleDb)
      → HandlerStep org d (patch_agent_schedule c is_safe_url now id org b d).1
  deletes :
      (c : HandlerSettings) (id : ℕ) (d : ScheduleDb)
      → HandlerStep org d (delete_agent_schedule c id org d).1
  creates_trigger :
      (c : HandlerSettings) (is_safe_url : ℕ → Bool) (now new_id user name prompt : ℕ)
      (callback_url : Option ℕ) (token hash : ℕ) (next : Option ℕ) (d : ScheduleDb)
      → HandlerStep org d
          (create_event_trigger_for c is_safe_url now new_id org user name prompt callback_url token
            hash next d).1
  patches_trigger :
      (c : HandlerSettings) (is_safe_url : ℕ → Bool) (now id : ℕ) (b : PatchBody) (d : ScheduleDb)
      → HandlerStep org d (patch_event_trigger c is_safe_url now id org b d).1
  deletes_trigger :
      (c : HandlerSettings) (id : ℕ) (d : ScheduleDb)
      → HandlerStep org d (delete_event_trigger c id org d).1
  rotates :
      (c : HandlerSettings) (now id hash : ℕ) (d : ScheduleDb)
      → HandlerStep org d (rotate_secret c now id org hash d).1

queued-KeepsOthers :
    (now id org : ℕ) (d : ScheduleDb) → KeepsOthers org d (queue_scheduled_run_now now id org d)
unfolding queue_scheduled_run_now
queued-KeepsOthers now id org d =
    update_schedule-KeepsOthers id org (queued_now now org) d (λ r found apart. rw apart refl)

rotated-KeepsOthers :
    (now id org hash : ℕ) (d : ScheduleDb)
    → KeepsOthers org d (rotate_event_trigger_secret now id org hash d).1
unfolding rotate_event_trigger_secret
rotated-KeepsOthers now id org hash d =
    update_schedule-KeepsOthers id org (rotated now org hash) d (λ r found apart. rw apart refl)

after_insert-KeepsOthers :
    (org code : ℕ) (d : ScheduleDb) (written : Result (ScheduledRun × ScheduleDb))
    → OnOk (λ out. KeepsOthers org d out.1) written
    → KeepsOthers org d (after_insert code d written).1
after_insert-KeepsOthers org code d (err why) keeps = same_runs-KeepsOthers org d d refl
after_insert-KeepsOthers org code d (ok (r, d')) keeps = keeps

after_trigger_insert-KeepsOthers :
    (new_id org : ℕ) (d : ScheduleDb) (written : Result (ScheduledRun × ScheduleDb))
    → OnOk (λ out. KeepsOthers org d out.1) written
    → KeepsOthers org d (after_trigger_insert new_id org d written).1
after_trigger_insert-KeepsOthers new_id org d (err why) keeps = same_runs-KeepsOthers org d d refl
after_trigger_insert-KeepsOthers new_id org d (ok (r, d')) keeps = keeps

patched_schedule-KeepsOthers :
    (org : ℕ) (d : ScheduleDb) (written : Result (Option ScheduledRun × ScheduleDb))
    → OnOk (λ out. KeepsOthers org d out.1) written
    → KeepsOthers org d (patched_schedule d written).1
unfolding patched_schedule
patched_schedule-KeepsOthers org d (err why) keeps = same_runs-KeepsOthers org d d refl
patched_schedule-KeepsOthers org d (ok (none, d')) keeps = keeps
patched_schedule-KeepsOthers org d (ok (some r, d')) keeps = keeps

patched_trigger-KeepsOthers :
    (id org : ℕ) (d : ScheduleDb) (written : Result (Option ScheduledRun × ScheduleDb))
    → OnOk (λ out. KeepsOthers org d out.1) written
    → KeepsOthers org d (patched_trigger id org d written).1
unfolding patched_trigger
patched_trigger-KeepsOthers id org d (err why) keeps = same_runs-KeepsOthers org d d refl
patched_trigger-KeepsOthers id org d (ok (none, d')) keeps = keeps
patched_trigger-KeepsOthers id org d (ok (some r, d')) keeps = keeps

patch_row-KeepsOthers :
    (now id org : ℕ) (b : PatchBody) (change : ScheduleChange) (d : ScheduleDb)
    → OnOk (λ out. KeepsOthers org d out.1) (patch_row now id org b change d)
unfolding patch_row
patch_row-KeepsOthers now id org b change d =
    ground (arith, update_scheduled_run-KeepsOthers now id org change d)

create_scheduled_run-KeepsOthers :
    (now new_id org user name prompt interval : ℕ) (url : Option ℕ) (sink : CallbackFormat)
    (first : Option ℕ) (d : ScheduleDb)
    → OnOk
        (λ out. KeepsOthers org d out.1)
        (create_scheduled_run now new_id org user name prompt interval url sink first d)
unfolding create_scheduled_run
create_scheduled_run-KeepsOthers now new_id org user name prompt interval url sink first d =
    insert_schedule-KeepsOthers new_id org
      (interval_row now org user name prompt interval url sink first) d

create_event_trigger-KeepsOthers :
    (now new_id org user name prompt : ℕ) (url : Option ℕ) (token hash : ℕ) (sink : CallbackFormat)
    (next : Option ℕ) (d : ScheduleDb)
    → OnOk
        (λ out. KeepsOthers org d out.1)
        (create_event_trigger now new_id org user name prompt url token hash sink next d)
unfolding create_event_trigger
create_event_trigger-KeepsOthers now new_id org user name prompt url token hash sink next d =
    insert_schedule-KeepsOthers new_id org
      (event_row now org user name prompt url token hash sink next) d

HandlerStep-Keeps : {org : ℕ} {d d' : ScheduleDb} → HandlerStep org d d' → KeepsOthers org d d'
unfolding create_agent_schedule run_agent_schedule_now patch_agent_schedule delete_agent_schedule
    create_event_trigger_for patch_event_trigger delete_event_trigger rotate_secret
HandlerStep-Keeps {org} (creates c safe now new_id user name prompt interval url sink first d) =
    ground (
      arith,
      same_runs-KeepsOthers org d d refl,
      after_insert-KeepsOthers org 201 d
          (create_scheduled_run now new_id org user name prompt interval url sink first d)
          (create_scheduled_run-KeepsOthers now new_id org user name prompt interval url sink first
            d),
    )
HandlerStep-Keeps {org} (runs_now c now id d) =
    ground (arith, same_runs-KeepsOthers org d d refl, queued-KeepsOthers now id org d)
HandlerStep-Keeps {org} (deletes c id d) =
    ground (arith, same_runs-KeepsOthers org d d refl, delete_scheduled_run-KeepsOthers id org d)
HandlerStep-Keeps {org} (rotates c now id hash d) =
    ground (arith, same_runs-KeepsOthers org d d refl, rotated-KeepsOthers now id org hash d)
HandlerStep-Keeps {org} (deletes_trigger c id d) =
    ground (arith, same_runs-KeepsOthers org d d refl, delete_scheduled_run-KeepsOthers id org d)
HandlerStep-Keeps {org} (patches c safe now id b d) = ground (
  arith,
  same_runs-KeepsOthers org d d refl,
  patched_schedule-KeepsOthers org d (patch_row now id org b (schedule_change b) d)
      (patch_row-KeepsOthers now id org b (schedule_change b) d),
)
HandlerStep-Keeps {org} (creates_trigger c safe now new_id user name prompt url token hash next d) =
    ground (
      arith,
      same_runs-KeepsOthers org d d refl,
      after_trigger_insert-KeepsOthers new_id org d
          (create_event_trigger now new_id org user name prompt url token hash json_format next d)
          (create_event_trigger-KeepsOthers now new_id org user name prompt url token hash
            json_format next d),
    )
HandlerStep-Keeps {org} (patches_trigger c safe now id b d) = ground (
  arith,
  same_runs-KeepsOthers org d d refl,
  patched_trigger-KeepsOthers id org d (patch_row now id org b (trigger_change b) d)
      (patch_row-KeepsOthers now id org b (trigger_change b) d),
)

-- A request with the token of an org leaves each schedule of another org as it is; or it clears the
-- target of that schedule's chain and nothing else, and then that target was a schedule of the
-- requesting org and is deleted.
pub HandlerStep-KeepsOthers :
    (org : ℕ) (d d' : ScheduleDb) (id : ℕ) (r : ScheduledRun)
    → HandlerStep org d d'
    → lookup id d.scheduled_runs ≡ some r
    → (r.org_id == org) ≡ false
    → IsKeptRow org id r d d'
HandlerStep-KeepsOthers org d d' id r step found apart = HandlerStep-Keeps step id r found apart
