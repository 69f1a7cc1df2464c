-- ===== src/Rollout/Operate.antt =====
-- What an operator does with a rollout in apps/api/src/admin/update-rollout.service.ts: `start`,
-- `cancel` and `cancelJob`. An exception is an answer without a new state.
use rem0te.Rollout.Data.{
  Db, Job, Rollout, RolloutStatus, JobStatus, FailureReason, find_rollout, update_rollout,
  update_job, keep_jobs, is_not_done, log_audit, log_event, change_job,
}
use rem0te.Rollout.Tick.{Node, tick, first_batch}
use rem0te.Prelude.{
  ℕ, Bool, true, false, ◌&&◌, Option, none, some, List, [], ◌∷◌, String, str_eq, if◌then◌else◌,
}

pub data Answer : Type 0 where
  done : Db → Answer
  not_found conflict : Answer

abbrev pub in_rollout : String → Job → Bool
in_rollout id j = str_eq j.rollout_id id && is_not_done j.status

abbrev is_waiting : JobStatus → Bool
is_waiting JobStatus.requested = true
is_waiting _ = false

abbrev pending : String → Job → Bool
pending id j = str_eq j.rollout_id id && is_waiting j.status

abbrev or_zero : Option ℕ → ℕ
or_zero none = 0
or_zero (some n) = n

abbrev to_running : ℕ → Rollout → Rollout
to_running b r = record r { status = RolloutStatus.running; current_batch = b }

abbrev set_running : String → ℕ → String → Db → Db
set_running id b action db =
    log_audit action id (record db { rollouts = update_rollout id (to_running b) db.rollouts })

-- The first `wall` and `now` are the clock's, `node` the rows of the RustDesk nodes.
unfoldable pub start : ℕ → ℕ → (String → Option Node) → String → Db → Answer
unfolding tick first_batch keep_jobs update_rollout find_rollout
start wall now node id db = elim (find_rollout id db.rollouts) [
  | none ↦ not_found
  | some r ↦ elim r.status [
    | RolloutStatus.draft ↦ done (
        tick wall now node (
          set_running id (or_zero (first_batch (keep_jobs (pending id) db.jobs)))
            "UPDATE_ROLLOUT_STARTED" db))
    | RolloutStatus.paused ↦
        done (tick wall now node (set_running id r.current_batch "UPDATE_ROLLOUT_RESUMED" db))
    | _ ↦ conflict
  ]
]

abbrev pub to_canceled : ℕ → FailureReason → Job → Job
to_canceled now why j = record j {
  status = JobStatus.canceled;
  completed_at = some now;
  failure_reason = some why;
}

abbrev cancel_reason : JobStatus → FailureReason
cancel_reason s =
    if is_waiting s
    then FailureReason.rollout_canceled
    else FailureReason.rollout_canceled_after_dispatch

-- the loop over the jobs that are not done
unfoldable pub cancel_jobs : ℕ → List Job → Db → Db
unfolding update_job
cancel_jobs now [] db = db
cancel_jobs now (j ∷ js) db =
    cancel_jobs now js
      (log_event j.id "canceled" (change_job j.id (to_canceled now (cancel_reason j.status)) db))

abbrev to_canceled_rollout : Rollout → Rollout
to_canceled_rollout r = record r { status = RolloutStatus.canceled }

unfoldable pub cancel : ℕ → String → Db → Answer
unfolding cancel_jobs find_rollout update_rollout keep_jobs
cancel now id db = elim (find_rollout id db.rollouts) [
  | none ↦ not_found
  | some r ↦ elim r.status [
    | RolloutStatus.completed ↦ conflict
    | RolloutStatus.canceled ↦ conflict
    | _ ↦ done (
        log_audit "UPDATE_ROLLOUT_CANCELED" id (
          cancel_jobs now (keep_jobs (in_rollout id) db.jobs)
            (record db { rollouts = update_rollout id to_canceled_rollout db.rollouts })))
  ]
]

unfoldable pub find_job : String → List Job → Option Job
find_job id [] = none
find_job id (j ∷ js) = if str_eq j.id id then some j else find_job id js

unfoldable pub cancel_job : ℕ → String → Db → Answer
unfolding find_job update_job
cancel_job now id db = elim (find_job id db.jobs) [
  | none ↦ not_found
  | some j ↦
      if is_not_done j.status
      then done (
          log_event id "canceled"
            (change_job id (to_canceled now FailureReason.canceled_by_operator) db))
      else conflict
]
