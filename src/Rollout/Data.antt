-- ===== src/Rollout/Data.antt =====
-- The tables of apps/api/src/admin/update-rollout.service.ts: rollouts, their jobs, the history of
-- a job, and the audit log by action and resource. Instants are milliseconds since the epoch.
use rem0te.Prelude.{
  ℕ, Bool, true, false, Option, none, some, List, [], ◌∷◌, String, str_eq, if◌then◌else◌,
}
use rem0te.Prelude.Json.{Json}

pub data JobStatus : Type 0 where
  requested dispatched installing awaiting_verification : JobStatus
  succeeded failed canceled skipped : JobStatus

-- `ACTIVE`
abbrev pub is_active : JobStatus → Bool
is_active dispatched = true
is_active installing = true
is_active awaiting_verification = true
is_active _ = false

-- `NOT_DONE`
abbrev pub is_not_done : JobStatus → Bool
is_not_done requested = true
is_not_done s = is_active s

abbrev pub is_failed : JobStatus → Bool
is_failed failed = true
is_failed _ = false

-- A failure reason, by the word that its message begins with.
pub data FailureReason : Type 0 where
  device_secret_changed installer_not_fetched no_heartbeat_after_dispatch : FailureReason
  install_not_completed not_registered_with_hbbs version_not_reached : FailureReason
  installed_newer_than_approved rollout_canceled rollout_canceled_after_dispatch : FailureReason
  canceled_by_operator : FailureReason

pub data DeferReason : Type 0 where
  outside_maintenance_window active_session_reported active_session_confirmed : DeferReason
  session_state_unknown : DeferReason

pub data CredentialSync : Type 0 where
  reported unchanged : CredentialSync

pub record Job : Type 0 where
  pub id : String
  pub rollout_id : String
  pub endpoint_id : String
  pub batch : ℕ
  pub status : JobStatus
  pub attempts : ℕ
  pub next_attempt_at : Option ℕ
  pub dispatched_at : Option ℕ
  pub dispatch_nonce : Option String
  pub install_started_at : Option ℕ
  pub verified_at : Option ℕ
  pub completed_at : Option ℕ
  pub installed_version : Option String
  pub failure_reason : Option FailureReason
  pub defer_reason : Option DeferReason
  pub credential_sync : Option CredentialSync

pub data RolloutStatus : Type 0 where
  draft running paused completed canceled : RolloutStatus

pub data Component : Type 0 where
  rustdesk agent : Component

pub record Rollout : Type 0 where
  pub id : String
  pub component : Component
  pub target_version : String
  pub artifact_sha256 : Option String
  pub status : RolloutStatus
  pub current_batch : ℕ
  pub failure_threshold : ℕ
  pub max_attempts : ℕ
  pub backoff_minutes : ℕ
  pub verify_timeout_minutes : ℕ
  pub maintenance_window : Json
  pub defer_on_unknown_session : Bool
  pub completed_at : Option ℕ

pub record Db : Type 0 where
  pub rollouts : List Rollout
  pub jobs : List Job
  pub history : List (String × String)
  pub audit : List (String × String)

-- `updateJob.update({ where: { id } })`
unfoldable pub update_job : String → (Job → Job) → List Job → List Job
update_job id f [] = []
update_job id f (j ∷ js) = (if str_eq j.id id then f j else j) ∷ update_job id f js

unfoldable pub find_rollout : String → List Rollout → Option Rollout
find_rollout id [] = none
find_rollout id (r ∷ rs) = if str_eq r.id id then some r else find_rollout id rs

unfoldable pub update_rollout : String → (Rollout → Rollout) → List Rollout → List Rollout
update_rollout id f [] = []
update_rollout id f (r ∷ rs) = (if str_eq r.id id then f r else r) ∷ update_rollout id f rs

unfoldable pub keep_jobs : (Job → Bool) → List Job → List Job
keep_jobs p [] = []
keep_jobs p (j ∷ js) = if p j then j ∷ keep_jobs p js else keep_jobs p js

abbrev pub change_job : String → (Job → Job) → Db → Db
change_job id f db = record db { jobs = update_job id f db.jobs }

abbrev pub log_event : String → String → Db → Db
log_event id event db = record db { history = (id, event) ∷ db.history }

abbrev pub log_audit : String → String → Db → Db
log_audit action resource db = record db { audit = (action, resource) ∷ db.audit }
