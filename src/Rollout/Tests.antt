-- ===== src/Rollout/Tests.antt =====
-- A heartbeat that is handed a first update, and three versions.
use rem0te.Schedule.{Intl}
use rem0te.Rollout.Data.{
  Db, Job, Rollout, Component, JobStatus, RolloutStatus, find_rollout, keep_jobs,
}
use rem0te.Rollout.Engine.{HeartbeatFacts, record_all, failed_in, is_running}
use rem0te.Rollout.Heartbeat.{
  Payload, on_heartbeat, claim, not_done_of, active_job, dispatch_fresh, dispatch_first,
  dispatch_due, dispatch_job, defer_reason,
}
use rem0te.Rollout.Tick.{advance, holds_back}
use rem0te.Rollout.Tick.Release.{advance-Tolerates}
use rem0te.Rollout.Plan.{Computer, plan_jobs, is_windows}
use rem0te.Rollout.Plan.Batches.{PlannedFor, plan_jobs-PlannedFor}
use rem0te.Rollout.Dispatch.{IsHandedOut, on_heartbeat-IsHandedOut}
use rem0te.Rollout.Version.{compare_versions}
use rem0te.Prelude.{Forall₂, ◌<◌, ◌⊎◌, length, ◌≡◌, refl, true, false, none, some, [], ◌∷◌, any}
use rem0te.Prelude.Json.{Json}

abbrev clock : Intl
clock = record { is_zone = λ z. true; weekday = λ z t. "Mon"; hour = λ z t. 9; minute = λ z t. 0 }

abbrev job : Job
job = record {
  id = "j1";
  rollout_id = "r1";
  endpoint_id = "pc";
  batch = 0;
  status = JobStatus.requested;
  attempts = 0;
  next_attempt_at = none;
  dispatched_at = none;
  dispatch_nonce = none;
  install_started_at = none;
  verified_at = none;
  completed_at = none;
  installed_version = none;
  failure_reason = none;
  defer_reason = none;
  credential_sync = none;
}

abbrev rollout : Rollout
rollout = record {
  id = "r1";
  component = Component.rustdesk;
  target_version = "1.4.2";
  artifact_sha256 = none;
  status = RolloutStatus.running;
  current_batch = 0;
  failure_threshold = 1;
  max_attempts = 3;
  backoff_minutes = 15;
  verify_timeout_minutes = 60;
  maintenance_window = Json.null;
  defer_on_unknown_session = true;
  completed_at = none;
}

abbrev tables : Db
tables = record { rollouts = rollout ∷ []; jobs = job ∷ []; history = []; audit = [] }

abbrev facts : HeartbeatFacts
facts = record {
  endpoint_id = "pc";
  authenticated = true;
  rustdesk_version = some "1.3.0";
  agent_version = none;
  update_nonce = none;
  reported_password = false;
  sessions_active = 0;
}

abbrev handed : Payload
handed = record {
  component = Component.rustdesk;
  target_version = "1.4.2";
  nonce = "0123456789abcdef";
}

abbrev seen : Db
seen =
    record_all facts 1000 none (keep_jobs active_job (keep_jobs (not_done_of "pc") tables.jobs))
      tables

on_heartbeat-IsHandedOut_example :
    (facts.authenticated ≡ true)
    × (any active_job (keep_jobs (not_done_of "pc") seen.jobs) ≡ false)
    × IsHandedOut clock facts [] "0123456789abcdef" 1000 seen
        (on_heartbeat clock facts [] "0123456789abcdef" 1000 none tables).1
        handed
unfolding on_heartbeat dispatch_fresh dispatch_first dispatch_due dispatch_job defer_reason claim
    record_all find_rollout keep_jobs any
on_heartbeat-IsHandedOut_example =
    on_heartbeat-IsHandedOut clock facts [] "0123456789abcdef" 1000 none tables handed refl

-- The first batch is done, and another waits.
abbrev next_job : Job
next_job = record job { id = "j2"; endpoint_id = "pc2"; batch = 1 }

abbrev halfway : Db
halfway = record tables { jobs = record job { status = JobStatus.succeeded } ∷ next_job ∷ [] }

advance-Tolerates_example :
    (is_running rollout.status ≡ true)
    × (any (holds_back rollout) halfway.jobs ≡ false)
    × (rollout.current_batch < 1)
    × ((rollout.failure_threshold ≡ 0)
        ⊎ (length (keep_jobs (failed_in "r1") halfway.jobs) < rollout.failure_threshold))
unfolding advance find_rollout
advance-Tolerates_example =
    advance-Tolerates 2000 rollout rollout (record rollout { current_batch = 1 }) halfway refl refl
      (λ e. cc)

abbrev computer : Computer
computer = record {
  id = "pc";
  platform = some "Windows 11";
  agent_version = none;
  rustdesk_version = some "1.3.0";
  has_secret = true;
}

plan_jobs-PlannedFor_example :
    Forall₂
      (PlannedFor Component.rustdesk "1.4.2" [] [] 10)
      (computer ∷ [])
      (plan_jobs Component.rustdesk "1.4.2" [] [] 10 0 (computer ∷ []))
plan_jobs-PlannedFor_example =
    plan_jobs-PlannedFor Component.rustdesk "1.4.2" [] [] 10 0 (computer ∷ [])

-- The one computer is planned in the first batch after the pilots.
planned_first :
    plan_jobs Component.rustdesk "1.4.2" [] [] 10 0 (computer ∷ [])
    ≡ (record { endpoint_id = "pc"; batch = 1; skip = none; old_version = some "1.3.0" }) ∷ []
unfolding plan_jobs is_windows compare_versions
planned_first = refl
