-- ===== src/Rollout/Tick.antt =====
-- The minute's work of apps/api/src/admin/update-rollout.service.ts: timeouts, the release of the
-- next batch, completion. The rows of the RustDesk nodes are given, and so is the clock.
pub mod Release
use rem0te.Rollout.Data.{
  Db, Job, Rollout, RolloutStatus, JobStatus, FailureReason, find_rollout, update_rollout,
  keep_jobs, is_active, is_not_done,
}
use rem0te.Rollout.Engine.{fail_attempt, check_threshold, is_running}
use rem0te.Prelude.{
  ℕ, zero, suc, ◌+◌, ◌*◌, Bool, true, false, not, ◌&&◌, ◌||◌, Option, none, some, List, [], ◌∷◌,
  String, str_eq, ltb, leb, if◌then◌else◌, any,
}

pub record Node : Type 0 where
  pub candidate_secret_seen_at : Option ℕ
  pub last_seen_at : Option ℕ

-- both instants are there, and the first is later
abbrev is_later : Option ℕ → Option ℕ → Bool
is_later (some t) (some d) = ltb d t
is_later _ _ = false

abbrev candidate_seen : Option Node → Option ℕ
candidate_seen none = none
candidate_seen (some n) = n.candidate_secret_seen_at

abbrev last_seen : Option Node → Option ℕ
last_seen none = none
last_seen (some n) = n.last_seen_at

unfoldable pub timeout_reason : Option Node → Job → FailureReason
timeout_reason node j =
    if is_later (candidate_seen node) j.dispatched_at
    then FailureReason.device_secret_changed
    else elim j.status [
      | JobStatus.dispatched ↦
          if is_later (last_seen node) j.dispatched_at
          then FailureReason.installer_not_fetched
          else FailureReason.no_heartbeat_after_dispatch
      | JobStatus.installing ↦ FailureReason.install_not_completed
      | _ ↦ FailureReason.not_registered_with_hbbs
    ]

unfoldable pub is_stale : Rollout → ℕ → Job → Bool
is_stale r now j = str_eq j.rollout_id r.id && is_active j.status && elim j.dispatched_at [
  | none ↦ false
  | some d ↦ ltb (d + r.verify_timeout_minutes * 60000) now
]

-- A job in a released batch that has no outcome yet.
abbrev pub holds_back : Rollout → Job → Bool
holds_back r j = str_eq j.rollout_id r.id && leb j.batch r.current_batch && is_not_done j.status

abbrev is_requested : JobStatus → Bool
is_requested JobStatus.requested = true
is_requested _ = false

abbrev pub waits_later : Rollout → Job → Bool
waits_later r j = str_eq j.rollout_id r.id && ltb r.current_batch j.batch && is_requested j.status

-- `Math.min(...later)`
unfoldable pub first_batch : List Job → Option ℕ
first_batch [] = none
first_batch (j ∷ js) = elim (first_batch js) [
  | none ↦ some j.batch
  | some b ↦ if leb j.batch b then some j.batch else some b
]

abbrev pub to_completed : ℕ → Rollout → Rollout
to_completed now r =
    if is_running r.status
    then record r { status = RolloutStatus.completed; completed_at = some now }
    else r

abbrev pub to_batch : ℕ → Rollout → Rollout
to_batch b r = record r { current_batch = b }

-- the threshold has been checked again
unfoldable pub release : String → ℕ → Db → Db
unfolding find_rollout update_rollout
release id b db = elim (find_rollout id db.rollouts) [
  | none ↦ db
  | some r ↦
      if is_running r.status
      then record db { rollouts = update_rollout id (to_batch b) db.rollouts }
      else db
]

-- The loop's body after the timeouts; `r` is the row that `tick` read.
unfoldable pub advance : ℕ → Rollout → Db → Db
unfolding any release check_threshold update_rollout first_batch keep_jobs
advance now r db =
    if not (is_running r.status)
    then db
    else if any (holds_back r) db.jobs
    then db
    else elim (first_batch (keep_jobs (waits_later r) db.jobs)) [
      | none ↦ record db { rollouts = update_rollout r.id (to_completed now) db.rollouts }
      | some b ↦ release r.id b (check_threshold r.id db)
    ]

-- `wall` is the clock that `failAttempt` reads, `node` the row of a computer's RustDesk node.
module _ (wall now : ℕ) (node : String → Option Node) where
  unfoldable pub time_out : Rollout → List Job → Db → Db
  unfolding fail_attempt timeout_reason
  time_out r [] db = db
  time_out r (j ∷ js) db =
      time_out r js (fail_attempt wall j r (timeout_reason (node j.endpoint_id) j) db)

  unfoldable pub tick_one : Rollout → Db → Db
  unfolding time_out advance is_stale
  tick_one r db = advance now r (time_out r (keep_jobs (is_stale r now) db.jobs) db)

  -- the rollouts that are running or paused
  unfoldable pub tick_all : List Rollout → Db → Db
  unfolding tick_one
  tick_all [] db = db
  tick_all (r ∷ rs) db = elim r.status [
    | RolloutStatus.running ↦ tick_all rs (tick_one r db)
    | RolloutStatus.paused ↦ tick_all rs (tick_one r db)
    | _ ↦ tick_all rs db
  ]

  unfoldable pub tick : Db → Db
  unfolding tick_all
  tick db = tick_all db.rollouts db
