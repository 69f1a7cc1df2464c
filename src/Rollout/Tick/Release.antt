-- ===== src/Rollout/Tick/Release.antt =====
-- What has to hold before a tick releases another batch.
use rem0te.Rollout.Data.{Db, Job, Rollout, RolloutStatus, find_rollout, update_rollout, keep_jobs}
use rem0te.Rollout.Engine.{check_threshold, failed_in, is_running, pause}
use rem0te.Rollout.Tick.{
  advance, to_completed, release, holds_back, to_batch, first_batch, waits_later,
}
use rem0te.Prelude.{
  ℕ, ◌<◌, ◌≡◌, ◌≢◌, ◌⊎◌, inl, inr, refl, ◌∙◌, true, false, Option, none, some, List, [], ◌∷◌,
  String, str_eq, arith, any, length, Bool-cases, Option-cases,
}

abbrev changed : (Rollout → Rollout) → Option Rollout → Option Rollout
changed f none = none
changed f (some r) = some (f r)

find-update :
    (id : String) (f : Rollout → Rollout) (rs : List Rollout)
    → ((r : Rollout) → (f r).id ≡ r.id)
    → find_rollout id (update_rollout id f rs) ≡ changed f (find_rollout id rs)
unfolding find_rollout update_rollout
find-update id f [] k = refl
find-update id f (r ∷ rs) k = elim (Bool-cases (str_eq r.id id)) [
  | inl h ↦ rw (h, k r, h)
  | inr h ↦ rw (h, h) (find-update id f rs k)
]

-- A rollout that still runs after the threshold was checked was running, and tolerates its failures.
check_threshold_running :
    (id : String) (db : Db) (r : Rollout)
    → find_rollout id (check_threshold id db).rollouts ≡ some r
    → is_running r.status ≡ true
    → (check_threshold id db ≡ db)
      × ((r.failure_threshold ≡ 0)
          ⊎ (length (keep_jobs (failed_in id) db.jobs) < r.failure_threshold))
unfolding check_threshold pause
check_threshold_running id db r h k = elim (Option-cases (find_rollout id db.rollouts)) [
  | inl e ↦ absurd (ground (arith, e, h))
  | inr (x, e) ↦ ground (
    arith,
    e,
    find-update id (λ y. record y { status = RolloutStatus.paused }) db.rollouts (λ y. refl),
  )
]

first_batch-Later :
    (r : Rollout) (js : List Job) (b : ℕ)
    → first_batch (keep_jobs (waits_later r) js) ≡ some b
    → r.current_batch < b
unfolding first_batch keep_jobs
first_batch-Later r [] b h = cc
first_batch-Later r (j ∷ js) b h =
    elim (Option-cases (first_batch (keep_jobs (waits_later r) js))) [
      | inl e ↦ ground (arith, e)
      | inr (c, e) ↦ ground (arith, e, first_batch-Later r js c e)
    ]

release_moves :
    (id : String) (b : ℕ) (db : Db) (r0 r1 : Rollout)
    → find_rollout id db.rollouts ≡ some r0
    → find_rollout id (release id b db).rollouts ≡ some r1
    → r1.current_batch ≢ r0.current_batch
    → (is_running r0.status ≡ true) × (r1.current_batch ≡ b)
unfolding release
release_moves id b db r0 r1 h0 h1 n =
    ground (arith, find-update id (to_batch b) db.rollouts (λ y. refl))

check_threshold_batch :
    (id : String) (db : Db) (r0 r1 : Rollout)
    → find_rollout id db.rollouts ≡ some r0
    → find_rollout id (check_threshold id db).rollouts ≡ some r1
    → r1.current_batch ≡ r0.current_batch
unfolding check_threshold pause
check_threshold_batch id db r0 r1 h0 h1 = ground (
  arith,
  find-update id (λ y. record y { status = RolloutStatus.paused }) db.rollouts (λ y. refl),
)

release-none :
    (id : String) (b : ℕ) (db : Db)
    → find_rollout id db.rollouts ≡ none
    → find_rollout id (release id b db).rollouts ≡ none
unfolding release
release-none id b db h = ground arith

complete_batch :
    (id : String) (f : Rollout → Rollout) (rs : List Rollout) (r0 r1 : Rollout)
    → ((r : Rollout) → (f r).id ≡ r.id)
    → ((r : Rollout) → (f r).current_batch ≡ r.current_batch)
    → find_rollout id rs ≡ some r0
    → find_rollout id (update_rollout id f rs) ≡ some r1
    → r1.current_batch ≡ r0.current_batch
complete_batch id f rs r0 r1 hid hb h0 h1 = ground (arith, find-update id f rs hid, hb r0)

to_completed-id : (now : ℕ) (r : Rollout) → (to_completed now r).id ≡ r.id
to_completed-id now r = ground arith

to_completed-batch : (now : ℕ) (r : Rollout) → (to_completed now r).current_batch ≡ r.current_batch
to_completed-batch now r = ground arith

-- A released batch comes from `release`, with what `advance` asked before.
released :
    (id : String) (b : ℕ) (db : Db) (r0 r1 : Rollout)
    → find_rollout id db.rollouts ≡ some r0
    → find_rollout id (release id b (check_threshold id db)).rollouts ≡ some r1
    → r1.current_batch ≢ r0.current_batch
    → (is_running r0.status ≡ true)
      × (r1.current_batch ≡ b)
      × ((r0.failure_threshold ≡ 0)
          ⊎ (length (keep_jobs (failed_in id) db.jobs) < r0.failure_threshold))
released id b db r0 r1 h0 h1 n =
    elim (Option-cases (find_rollout id (check_threshold id db).rollouts)) [
      | inl e ↦ absurd (cc (release-none id b (check_threshold id db) e, h1))
      | inr (x, e) ↦
          let (runs, batch) =
            release_moves id b (check_threshold id db) x r1 e h1
              (λ p. n (p ∙ check_threshold_batch id db r0 x h0 e)) in
          let (same_db, tolerated) = check_threshold_running id db x e runs in
          let same_row : x ≡ r0 = ground (arith, h0, e, same_db) in
          ground (arith, same_row, runs, batch, tolerated)
    ]

-- A tick that moves a rollout on to another batch moves it forward, the rollout was running, every
-- job of the batches released so far has its outcome, and the failures are below the threshold, if
-- there is one.
pub advance-Tolerates :
    (now : ℕ) (r r0 r1 : Rollout) (db : Db)
    → find_rollout r.id db.rollouts ≡ some r0
    → find_rollout r.id (advance now r db).rollouts ≡ some r1
    → r1.current_batch ≢ r0.current_batch
    → (is_running r0.status ≡ true)
      × (any (holds_back r) db.jobs ≡ false)
      × (r.current_batch < r1.current_batch)
      × ((r0.failure_threshold ≡ 0)
          ⊎ (length (keep_jobs (failed_in r.id) db.jobs) < r0.failure_threshold))
unfolding advance
advance-Tolerates now r r0 r1 db h0 h1 n = elim (Bool-cases (is_running r.status)) [
  | inr e ↦ absurd (ground (arith, e))
  | inl e ↦ elim (Bool-cases (any (holds_back r) db.jobs)) [
    | inl w ↦ absurd (ground (arith, e, w))
    | inr w ↦ elim (Option-cases (first_batch (keep_jobs (waits_later r) db.jobs))) [
      | inl f ↦ absurd (
          n (
            complete_batch r.id (to_completed now) db.rollouts r0 r1 (λ x. to_completed-id now x)
              (λ x. to_completed-batch now x) h0 (rw (e, w, f) at h1)))
      | inr (b, f) ↦
          let later = first_batch-Later r db.jobs b f in
          let (runs, batch, tolerated) = released r.id b db r0 r1 h0 (rw (e, w, f) at h1) n in
          (runs, w, rw batch later, tolerated)
    ]
  ]
]
