-- ===== src/Rollout/Dispatch.antt =====
-- When a heartbeat hands an installer out.
use mathlib.Core.Path.{subst}
use rem0te.Schedule.{Intl}
use rem0te.Rollout.Data.{Db, Job, Rollout, find_rollout, keep_jobs, is_not_done}
use rem0te.Rollout.Engine.{HeartbeatFacts, record_all, is_running}
use rem0te.Rollout.Heartbeat.{
  OpenSession, Payload, Response, defer_reason, window_shut, is_due, requested_job, claim,
  dispatch_job, dispatch_first, dispatch_fresh, on_heartbeat, active_job, not_done_of, serve_jobs,
  dispatch_due,
}
use rem0te.Prelude.Json.{Json}
use rem0te.Prelude.{
  ℕ, ◌≡◌, ◌≢◌, refl, ap, inl, inr, Bool, true, false, Option, none, some, List, [], ◌∷◌, String,
  arith, any, Bool-cases, Option-cases, if◌then◌else◌, sym, ◌∙◌, Any, eq_iff, ◌≤◌,
}

abbrev payload_of : Rollout → String → Payload
payload_of r nonce = record {
  component = r.component;
  target_version = r.target_version;
  nonce = nonce;
}

module _ (intl : Intl) (f : HeartbeatFacts) (sessions : List OpenSession) (nonce : String)
    (now : ℕ) where
  -- A row of the jobs, of this computer and not done, whose rollout runs, has released its batch and
  -- has its window open, past its backoff and with no session in the way, was still waiting and is
  -- claimed with the nonce that is handed out.
  pub record IsHandedOut (db db' : Db) (p : Payload) : Type 0 where
    pub job : Job
    pub rollout : Rollout
    pub listed : Any (λ x. x ≡ job) db.jobs
    pub of_computer : job.endpoint_id ≡ f.endpoint_id
    pub is_open : is_not_done job.status ≡ true
    pub found : find_rollout job.rollout_id db.rollouts ≡ some rollout
    pub running : is_running rollout.status ≡ true
    pub released : job.batch ≤ rollout.current_batch
    pub waited : (t : ℕ) → job.next_attempt_at ≡ some t → t ≤ now
    pub inside : window_shut intl rollout.maintenance_window now ≡ false
    pub no_connection : f.sessions_active ≡ 0
    pub no_session : any (λ s. s.is_confirmed) sessions ≡ false
    pub waiting : any (requested_job job.id) db.jobs ≡ true
    pub claimed : db'.jobs ≡ claim job.id nonce now db.jobs
    pub payload : p ≡ payload_of rollout nonce

  defer_none :
      (unknown : Bool) (window : Json)
      → defer_reason intl f sessions unknown window now ≡ none
      → (window_shut intl window now ≡ false)
        × (f.sessions_active ≡ 0)
        × (any (λ s. s.is_confirmed) sessions ≡ false)
  unfolding defer_reason
  defer_none unknown window h = ground arith

  due_lem :
      (j : Job) (r : Rollout) (retry : Option ℕ)
      → j.next_attempt_at ≡ retry
      → is_due j r now ≡ true
      → (is_running r.status ≡ true)
        × (j.batch ≤ r.current_batch)
        × ((t : ℕ) → j.next_attempt_at ≡ some t → t ≤ now)
  due_lem j r none e h = (ground arith, ground (arith, e), λ t k. cc)
  due_lem j r (some x) e h = (ground (arith, e), ground (arith, e), λ t k. ground (arith, e, k))

  mine_lem :
      (j : Job)
      → not_done_of f.endpoint_id j ≡ true
      → (j.endpoint_id ≡ f.endpoint_id) × (is_not_done j.status ≡ true)
  mine_lem j h = ground (arith, eq_iff j.endpoint_id f.endpoint_id)

  handed_out :
      (j : Job) (r : Rollout) (db : Db) (p : Payload)
      → Any (λ x. x ≡ j) db.jobs
      → not_done_of f.endpoint_id j ≡ true
      → find_rollout j.rollout_id db.rollouts ≡ some r
      → is_due j r now ≡ true
      → (dispatch_job intl f sessions nonce now j r db).0.payload ≡ some p
      → IsHandedOut db (dispatch_job intl f sessions nonce now j r db).1 p
  unfolding dispatch_job
  handed_out j r db p listed mine hf hd h =
      let (of_pc, open_) = mine_lem j mine in
      let (running, released, waited) = due_lem j r j.next_attempt_at refl hd in
      elim (Option-cases
        (defer_reason intl f sessions r.defer_on_unknown_session r.maintenance_window now)) [
          | inl e ↦ elim (Bool-cases (any (requested_job j.id) db.jobs)) [
            | inl w ↦
                let (shut, idle, quiet_) =
                  defer_none r.defer_on_unknown_session r.maintenance_window e in
                record {
                  job = j;
                  rollout = r;
                  listed = listed;
                  of_computer = of_pc;
                  is_open = open_;
                  found = hf;
                  running = running;
                  released = released;
                  waited = waited;
                  inside = shut;
                  no_connection = idle;
                  no_session = quiet_;
                  waiting = w;
                  claimed = ground arith;
                  payload = ground arith;
                }
            | inr w ↦ absurd (ground arith)
          ]
          | inr (why, e) ↦ absurd (ground arith)
        ]

  due-IsHandedOut :
      (o : Option Rollout) (j : Job) (rest : Response × Db) (db : Db) (p : Payload)
      → Any (λ x. x ≡ j) db.jobs
      → not_done_of f.endpoint_id j ≡ true
      → find_rollout j.rollout_id db.rollouts ≡ o
      → (rest.0.payload ≡ some p → IsHandedOut db rest.1 p)
      → (dispatch_due intl f sessions nonce now o j rest db).0.payload ≡ some p
      → IsHandedOut db (dispatch_due intl f sessions nonce now o j rest db).1 p
  unfolding dispatch_due
  due-IsHandedOut none j rest db p l m e k h = k h
  due-IsHandedOut (some r) j rest db p l m e k h = elim (Bool-cases (is_due j r now)) [
    | inl d ↦ rw d (handed_out j r db p l m e d (rw d at h))
    | inr d ↦ rw d (k (rw d at h))
  ]

  -- Each job that is looked at is a row, of this computer and not done.
  Rows : Db → List Job → Type 0
  Rows db [] = Unit
  Rows db (j ∷ js) = (Any (λ x. x ≡ j) db.jobs × (not_done_of f.endpoint_id j ≡ true)) × Rows db js

  first-IsHandedOut :
      (js : List Job) (db : Db) (p : Payload)
      → Rows db js
      → (dispatch_first intl f sessions nonce now js db).0.payload ≡ some p
      → IsHandedOut db (dispatch_first intl f sessions nonce now js db).1 p
  unfolding dispatch_first Rows
  first-IsHandedOut [] db p rows h = cc
  first-IsHandedOut (j ∷ js) db p rows h =
      due-IsHandedOut (find_rollout j.rollout_id db.rollouts) j
        (dispatch_first intl f sessions nonce now js db) db p rows.0.0 rows.0.1 refl
        (first-IsHandedOut js db p rows.1) h

  kept-Rows :
      (js : List Job) (db : Db)
      → ((x : Job) → Any (λ y. y ≡ x) js → Any (λ y. y ≡ x) db.jobs)
      → Rows db (keep_jobs (not_done_of f.endpoint_id) js)
  unfolding keep_jobs Rows
  kept-Rows [] db h = tt
  kept-Rows (j ∷ js) db h = elim (Bool-cases (not_done_of f.endpoint_id j)) [
    | inl e ↦ rw e ((h j (inl refl), e), kept-Rows js db (λ x k. h x (inr k)))
    | inr e ↦ rw e (kept-Rows js db (λ x k. h x (inr k)))
  ]

  fresh-IsHandedOut :
      (db : Db) (p : Payload)
      → (dispatch_fresh intl f sessions nonce now db).0.payload ≡ some p
      → (any active_job (keep_jobs (not_done_of f.endpoint_id) db.jobs) ≡ false)
        × IsHandedOut db (dispatch_fresh intl f sessions nonce now db).1 p
  unfolding dispatch_fresh
  fresh-IsHandedOut db p h =
      elim (Bool-cases (any active_job (keep_jobs (not_done_of f.endpoint_id) db.jobs))) [
        | inl e ↦ absurd (ground arith)
        | inr e ↦ (
          e,
          rw e (
              first-IsHandedOut (keep_jobs (not_done_of f.endpoint_id) db.jobs) db p
                (kept-Rows db.jobs db (λ x k. k)) (rw e at h)),
        )
      ]

served :
    (intl : Intl) (f : HeartbeatFacts) (sessions : List OpenSession) (nonce : String) (now : ℕ)
    (online : Option Bool) (js : List Job) (db : Db) (p : Payload)
    → (serve_jobs intl f sessions nonce now online js db).0.payload ≡ some p
    → let seen = record_all f now online (keep_jobs active_job js) db in
      (any active_job (keep_jobs (not_done_of f.endpoint_id) seen.jobs) ≡ false)
      × IsHandedOut intl f sessions nonce now seen
          (serve_jobs intl f sessions nonce now online js db).1
          p
unfolding serve_jobs
served intl f sessions nonce now online [] db p h = cc
served intl f sessions nonce now online (j ∷ js) db p h =
    fresh-IsHandedOut intl f sessions nonce now
      (record_all f now online (keep_jobs active_job (j ∷ js)) db) p h

gate :
    (b : Bool) (x y : Response × Db) (p : Payload)
    → y.0.payload ≢ some p
    → (if b then x else y).0.payload ≡ some p
    → (b ≡ true) × ((if b then x else y) ≡ x)
gate true x y p n h = (refl, refl)
gate false x y p n h = absurd (n h)

-- An installer leaves with a heartbeat only if the device is authenticated, nothing is in flight on
-- the computer after the evidence of this heartbeat, no session is reported or confirmed, and some
-- row of the jobs is of this computer, in a released batch of a running rollout, past its backoff,
-- inside its maintenance window and still waiting; that job is claimed with the nonce that leaves,
-- and what leaves is its rollout's component and version.
pub on_heartbeat-IsHandedOut :
    (intl : Intl) (f : HeartbeatFacts) (sessions : List OpenSession) (nonce : String) (now : ℕ)
    (online : Option Bool) (db : Db) (p : Payload)
    → (on_heartbeat intl f sessions nonce now online db).0.payload ≡ some p
    → let open_jobs = keep_jobs (not_done_of f.endpoint_id) db.jobs in
      let seen = record_all f now online (keep_jobs active_job open_jobs) db in
      (f.authenticated ≡ true)
      × (any active_job (keep_jobs (not_done_of f.endpoint_id) seen.jobs) ≡ false)
      × IsHandedOut intl f sessions nonce now seen
          (on_heartbeat intl f sessions nonce now online db).1
          p
unfolding on_heartbeat
on_heartbeat-IsHandedOut intl f sessions nonce now online db p h =
    let open_jobs = keep_jobs (not_done_of f.endpoint_id) db.jobs in
    let (authentic, same) =
      gate f.authenticated (serve_jobs intl f sessions nonce now online open_jobs db)
        (record { managed = false; payload = none }, db) p (λ e. cc) h in
    let (clear, out) =
      served intl f sessions nonce now online open_jobs db p
        (ap (λ x. x.0.payload) (sym same) ∙ h) in
    (
      authentic,
      clear,
      subst
          (λ x.
            IsHandedOut intl f sessions nonce now
              (record_all f now online (keep_jobs active_job open_jobs) db) x.1 p)
          (sym same) out,
    )
