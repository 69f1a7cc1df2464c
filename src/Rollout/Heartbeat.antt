-- ===== src/Rollout/Heartbeat.antt =====
-- `onHeartbeat`, `deferReason` and `installerFetched` of apps/api/src/admin/update-rollout.service.ts.
use rem0te.Schedule.Parse.{is_null, stored_schedule_allows}
use rem0te.Schedule.{Intl}
use rem0te.Rollout.Engine.{is_running, HeartbeatFacts, record_all}
use rem0te.Prelude.{
  ℕ, ◌+◌, ◌*◌, Bool, true, false, not, ◌&&◌, ◌||◌, Option, none, some, List, [], ◌∷◌, String,
  str_eq, ltb, leb, ◌==◌, if◌then◌else◌, length, any, all, codes,
}
use rem0te.Prelude.Json.{Json}
use rem0te.Rollout.Data.{
  Db, Job, Rollout, dispatched, outside_maintenance_window, active_session_reported,
  active_session_confirmed, session_state_unknown, DeferReason, JobStatus, update_job, is_not_done,
  Component, is_active, find_rollout, log_event, keep_jobs, change_job,
}

-- a support session of the computer in one of the statuses that are asked for
pub record OpenSession : Type 0 where
  pub is_confirmed : Bool
  pub created_at : ℕ

pub record Payload : Type 0 where
  pub component : Component
  pub target_version : String
  pub nonce : String

-- `managed`, and what is handed out
pub record Response : Type 0 where
  pub managed : Bool
  pub payload : Option Payload

abbrev two_hours : ℕ
two_hours = 2 * 3600000

abbrev is_recent : ℕ → OpenSession → Bool
is_recent now s = ltb now (s.created_at + two_hours)

-- a stored window of null or undefined is no window; a malformed one is never open
abbrev pub window_shut : Intl → Json → ℕ → Bool
window_shut intl window now = not (is_null window) && not (stored_schedule_allows intl window now)

unfoldable pub defer_reason :
    Intl → HeartbeatFacts → List OpenSession → Bool → Json → ℕ → Option DeferReason
unfolding any
defer_reason intl f sessions defer_on_unknown window now =
    if window_shut intl window now
    then some DeferReason.outside_maintenance_window
    else if ltb 0 f.sessions_active
    then some DeferReason.active_session_reported
    else if any (λ s. s.is_confirmed) sessions
    then some DeferReason.active_session_confirmed
    else if defer_on_unknown && any (is_recent now) sessions
    then some DeferReason.session_state_unknown
    else none

abbrev pub not_done_of : String → Job → Bool
not_done_of endpoint j = str_eq j.endpoint_id endpoint && is_not_done j.status

abbrev pub active_job : Job → Bool
active_job j = is_active j.status

abbrev pub requested_job : String → Job → Bool
requested_job id j = str_eq j.id id && (is_not_done j.status && not (is_active j.status))

abbrev pub to_dispatched : String → ℕ → Job → Job
to_dispatched nonce now j = record j {
  status = JobStatus.dispatched;
  dispatch_nonce = some nonce;
  dispatched_at = some now;
  attempts = j.attempts + 1;
  defer_reason = none;
  install_started_at = none;
}

-- `updateMany({ where: { id, status: 'REQUESTED' } })`
unfoldable pub claim : String → String → ℕ → List Job → List Job
claim id nonce now [] = []
claim id nonce now (j ∷ js) =
    (if requested_job id j then to_dispatched nonce now j else j) ∷ claim id nonce now js

abbrev pub is_due : Job → Rollout → ℕ → Bool
is_due j r now =
    is_running r.status
    && leb j.batch r.current_batch
    && elim j.next_attempt_at [ none ↦ true | some t ↦ leb t now ]

abbrev quiet : Response
quiet = record { managed = true; payload = none }

abbrev same_reason : Option DeferReason → DeferReason → Bool
same_reason (some outside_maintenance_window) outside_maintenance_window = true
same_reason (some active_session_reported) active_session_reported = true
same_reason (some active_session_confirmed) active_session_confirmed = true
same_reason (some session_state_unknown) session_state_unknown = true
same_reason _ _ = false

unfoldable pub note_deferral : Job → DeferReason → Db → Db
unfolding update_job
note_deferral j why db =
    if same_reason j.defer_reason why
    then db
    else log_event j.id "deferred" (change_job j.id (λ x. record x { defer_reason = some why }) db)

-- `nonce` is the fresh random one.
module _ (intl : Intl) (f : HeartbeatFacts) (sessions : List OpenSession) (nonce : String)
    (now : ℕ) where
  -- a due job: deferred, or claimed and handed out
  unfoldable pub dispatch_job : Job → Rollout → Db → Response × Db
  dispatch_job j r db =
      elim (defer_reason intl f sessions r.defer_on_unknown_session r.maintenance_window now) [
        | some why ↦ (quiet, note_deferral j why db)
        | none ↦
            if any (requested_job j.id) db.jobs
            then (
              record {
                managed = true;
                payload = some (record {
                  component = r.component;
                  target_version = r.target_version;
                  nonce = nonce;
                });
              },
              log_event j.id "dispatched" (record db { jobs = claim j.id nonce now db.jobs }),
            )
            else (quiet, db)
      ]

  -- a job with its rollout, or what the rest of the loop comes to
  unfoldable pub dispatch_due : Option Rollout → Job → Response × Db → Db → Response × Db
  dispatch_due none j rest db = rest
  dispatch_due (some r) j rest db = if is_due j r now then dispatch_job j r db else rest

  -- The loop over the jobs that wait: the first due one decides.
  unfoldable pub dispatch_first : List Job → Db → Response × Db
  dispatch_first [] db = (quiet, db)
  dispatch_first (j ∷ js) db =
      dispatch_due (find_rollout j.rollout_id db.rollouts) j (dispatch_first js db) db

  -- with the evidence recorded
  unfoldable pub dispatch_fresh : Db → Response × Db
  dispatch_fresh db =
      let fresh = keep_jobs (not_done_of f.endpoint_id) db.jobs in
      if any active_job fresh then (quiet, db) else dispatch_first fresh db

  -- the jobs of the computer that are not done, if there are any
  unfoldable pub serve_jobs : Option Bool → List Job → Db → Response × Db
  serve_jobs online [] db = (record { managed = false; payload = none }, db)
  serve_jobs online (j ∷ js) db =
      dispatch_fresh (record_all f now online (keep_jobs active_job (j ∷ js)) db)

  unfoldable pub on_heartbeat : Option Bool → Db → Response × Db
  unfolding serve_jobs
  on_heartbeat online db =
      if f.authenticated
      then serve_jobs online (keep_jobs (not_done_of f.endpoint_id) db.jobs) db
      else (record { managed = false; payload = none }, db)

abbrev nonce_char : ℕ → Bool
nonce_char c =
    leb b'A' c && leb c b'Z'
    || leb b'a' c && leb c b'z'
    || leb b'0' c && leb c b'9'
    || c == b'_'
    || c == b'-'

-- `/^[A-Za-z0-9_-]{16,64}$/`
unfoldable pub is_nonce : String → Bool
unfolding all
is_nonce s = all nonce_char (codes s) && leb 16 (length (codes s)) && leb (length (codes s)) 64

unfoldable pub find_nonce : String → List Job → Option Job
find_nonce n [] = none
find_nonce n (j ∷ js) = elim j.dispatch_nonce [
  | none ↦ find_nonce n js
  | some m ↦ if str_eq m n then some j else find_nonce n js
]

pub record Installer : Type 0 where
  pub version : String
  pub sha256 : Option String
  pub component : Component

abbrev is_dispatched : JobStatus → Bool
is_dispatched dispatched = true
is_dispatched _ = false

abbrev to_installing : ℕ → Job → Job
to_installing now x =
    if is_dispatched x.status
    then record x { status = JobStatus.installing; install_started_at = some now }
    else x

abbrev serve : Rollout → Installer
serve r = record { version = r.target_version; sha256 = r.artifact_sha256; component = r.component }

unfoldable pub installer_fetched : ℕ → Option String → Db → Option Installer × Db
unfolding is_nonce find_nonce update_job find_rollout
installer_fetched now none db = (none, db)
installer_fetched now (some n) db =
    if not (is_nonce n) then (none, db) else elim (find_nonce n db.jobs) [
      | none ↦ (none, db)
      | some j ↦ elim (find_rollout j.rollout_id db.rollouts) [
        | none ↦ (none, db)
        | some r ↦
            if not (is_active j.status)
            then (none, db)
            else if is_dispatched j.status
            then (
              some (serve r),
              log_event j.id "installer_fetched" (change_job j.id (to_installing now) db),
            )
            else (some (serve r), db)
      ]
    ]
