-- ===== src/Rollout/Engine.antt =====
-- The engine of apps/api/src/admin/update-rollout.service.ts: failed attempts, evidence from a
-- heartbeat, dispatch, and the fetch of an installer. The clock, the nonce, the answer of hbbs and
-- the open sessions of the computer are given.
use rem0te.Rollout.Version.{compare_versions, Verdict}
use rem0te.Prelude.{
  is_empty, ℕ, ◌+◌, ◌-◌, ◌*◌, ◌^◌, Bool, true, false, ◌&&◌, Option, none, some, List, [], ◌∷◌,
  String, str_eq, ltb, leb, if◌then◌else◌, length,
}
use rem0te.Rollout.Data.{
  Db, Job, Rollout, rustdesk, agent, update_job, FailureReason, Component, is_failed,
  update_rollout, JobStatus, RolloutStatus, CredentialSync, find_rollout, keep_jobs, log_audit,
  log_event, change_job,
}

pub record HeartbeatFacts : Type 0 where
  pub endpoint_id : String
  pub authenticated : Bool
  pub rustdesk_version : Option String
  pub agent_version : Option String
  pub update_nonce : Option String
  pub reported_password : Bool
  pub sessions_active : ℕ

abbrev pub is_running : RolloutStatus → Bool
is_running RolloutStatus.running = true
is_running _ = false

-- `updateMany({ where: { id, status: 'RUNNING' }, data: { status: 'PAUSED' } })`, and its audit
unfoldable pub pause : String → Db → Db
unfolding update_rollout find_rollout
pause id db = elim (find_rollout id db.rollouts) [
  | none ↦ db
  | some r ↦
      if is_running r.status
      then log_audit "UPDATE_ROLLOUT_PAUSED" id (record db {
        rollouts = update_rollout id (λ x. record x { status = RolloutStatus.paused }) db.rollouts;
      })
      else db
]

abbrev pub failed_in : String → Job → Bool
failed_in id j = str_eq j.rollout_id id && is_failed j.status

unfoldable pub check_threshold : String → Db → Db
unfolding pause find_rollout keep_jobs
check_threshold id db = elim (find_rollout id db.rollouts) [
  | none ↦ db
  | some r ↦
      if is_running r.status
        && ltb 0 r.failure_threshold
        && leb r.failure_threshold (length (keep_jobs (failed_in id) db.jobs))
      then pause id db
      else db
]

abbrev pub to_failed : ℕ → FailureReason → Job → Job
to_failed now why j = record j {
  status = JobStatus.failed;
  completed_at = some now;
  failure_reason = some why;
  dispatch_nonce = none;
}

unfoldable pub fail : ℕ → Job → FailureReason → Db → Db
unfolding update_job
fail now j why db = check_threshold j.rollout_id (
    log_audit "UPDATE_JOB_FAILED" j.id
      (log_event j.id "failed" (change_job j.id (to_failed now why) db)))

-- `backoffMinutes * 2 ** max(0, attempts - 1)`
abbrev pub retry_delay : ℕ → ℕ → ℕ
retry_delay backoff attempts = backoff * 2 ^ (attempts - 1)

abbrev pub to_retry : ℕ → ℕ → FailureReason → Job → Job
to_retry now delay why j = record j {
  status = JobStatus.requested;
  failure_reason = some why;
  dispatch_nonce = none;
  next_attempt_at = some (now + delay * 60000);
}

unfoldable pub fail_attempt : ℕ → Job → Rollout → FailureReason → Db → Db
unfolding fail update_job
fail_attempt now j r why db =
    if leb r.max_attempts j.attempts
    then fail now j why db
    else log_event j.id "retry_scheduled"
        (change_job j.id (to_retry now (retry_delay r.backoff_minutes j.attempts) why) db)

abbrev pub reported_version : Rollout → HeartbeatFacts → Option String
reported_version r f = elim r.component [ rustdesk ↦ f.rustdesk_version | agent ↦ f.agent_version ]

abbrev same_text : Option String → Option String → Bool
same_text (some a) (some b) = str_eq a b
same_text _ _ = false

abbrev sync_of : HeartbeatFacts → CredentialSync
sync_of f = if f.reported_password then CredentialSync.reported else CredentialSync.unchanged

abbrev is_rustdesk : Component → Bool
is_rustdesk rustdesk = true
is_rustdesk agent = false

abbrev pub is_awaiting : JobStatus → Bool
is_awaiting JobStatus.awaiting_verification = true
is_awaiting _ = false

abbrev may_fall_short : JobStatus → Bool
may_fall_short JobStatus.installing = true
may_fall_short JobStatus.dispatched = true
may_fall_short _ = false

abbrev pub to_awaiting : String → HeartbeatFacts → Job → Job
to_awaiting v f j = record j {
  status = JobStatus.awaiting_verification;
  installed_version = some v;
  credential_sync = some (sync_of f);
}

abbrev pub to_succeeded : ℕ → HeartbeatFacts → Job → Job
to_succeeded now f j = record j {
  status = JobStatus.succeeded;
  verified_at = some now;
  completed_at = some now;
  dispatch_nonce = none;
  failure_reason = none;
  credential_sync = some (sync_of f);
}

-- The answer of hbbs: it could not be asked, or whether the computer is registered.
abbrev pub not_registered : Option Bool → Bool
not_registered (some false) = true
not_registered _ = false

module _ (f : HeartbeatFacts) (now : ℕ) (online : Option Bool) where
  -- the rest of `recordEvidence`, with the target version reported
  unfoldable pub on_target : Job → String → Db → Db
  unfolding update_job
  on_target j v db =
      let db' =
        if is_awaiting j.status
        then db
        else log_event j.id "version_reported" (change_job j.id (to_awaiting v f) db) in
      if not_registered online
      then db'
      else log_audit "UPDATE_JOB_SUCCEEDED" j.id
          (log_event j.id "verified" (change_job j.id (to_succeeded now f) db'))

  unfoldable pub judge : Job → Rollout → String → Verdict → Db → Db
  unfolding on_target fail fail_attempt update_job
  judge j r v Verdict.newer db =
      if is_rustdesk r.component
      then fail now j FailureReason.installed_newer_than_approved (
          change_job j.id
            (λ x. record x { installed_version = some v; credential_sync = some (sync_of f) }) db)
      else on_target j v db
  judge j r v Verdict.older db =
      if same_text f.update_nonce j.dispatch_nonce && may_fall_short j.status
      then fail_attempt now j r FailureReason.version_not_reached
          (change_job j.id (λ x. record x { installed_version = some v }) db)
      else db
  judge j r v Verdict.same db = on_target j v db

  unfoldable pub record_evidence : Job → Rollout → Db → Db
  unfolding judge compare_versions
  record_evidence j r db = elim (reported_version r f) [
    | none ↦ db
    | some v ↦ if is_empty v then db else judge j r v (compare_versions v r.target_version) db
  ]

  -- A job comes with its rollout; one whose rollout is gone was deleted with it.
  unfoldable pub record_all : List Job → Db → Db
  unfolding record_evidence find_rollout
  record_all [] db = db
  record_all (j ∷ js) db =
      record_all js (elim (find_rollout j.rollout_id db.rollouts) [
        | none ↦ db
        | some r ↦ record_evidence j r db
      ])
