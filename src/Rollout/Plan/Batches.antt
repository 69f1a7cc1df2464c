-- ===== src/Rollout/Plan/Batches.antt =====
-- Which computers a plan asks to update, and in which batch.
use rem0te.Rollout.Data.{Component}
use rem0te.Rollout.Plan.{
  Computer, Planned, plan_jobs, skip_reason, among, is_windows, from_version, is_same, verdict_on,
}
use rem0te.Prelude.{
  ℕ, ◌+◌, ◌≡◌, refl, Bool, true, not, ◌&&◌, ◌||◌, List, [], ◌∷◌, String, arith, ◌==◌, is_some,
  Bool-cases, inl, inr, Forall₂,
}

module _ (component : Component) (target : String) (busy pilots : List String) (size : ℕ) where
  -- A computer that no other rollout has, that runs Windows, that can authenticate, and that is not
  -- on the target.
  abbrev pub is_eligible : Computer → Bool
  is_eligible e =
      not (among e.id busy)
      && is_windows e.platform
      && e.has_secret
      && not (is_same (verdict_on (from_version component e) target))

  -- The job of a computer: in batch 0 exactly for a pilot, and to be done only if eligible.
  pub record PlannedFor (e : Computer) (p : Planned) : Type 0 where
    pub endpoint : p.endpoint_id ≡ e.id
    pub batch : (p.batch == 0) ≡ among e.id pilots
    pub requested : (is_some p.skip || is_eligible e) ≡ true

  eligible_of_none :
      (e : Computer)
      → (is_some (skip_reason component target busy pilots size e) || is_eligible e) ≡ true
  unfolding skip_reason
  eligible_of_none e = ground arith

  -- A plan has one job for each computer, in their order: in batch 0 exactly for a computer of the
  -- pilot group, and skipped unless the computer is in no other rollout, runs Windows, has a device
  -- secret and is not on the target version.
  pub plan_jobs-PlannedFor :
      (idx : ℕ) (es : List Computer)
      → Forall₂ PlannedFor es (plan_jobs component target busy pilots size idx es)
  unfolding plan_jobs
  plan_jobs-PlannedFor idx [] = tt
  plan_jobs-PlannedFor idx (e ∷ es) = elim (Bool-cases (among e.id pilots)) [
    | inl h ↦ rw h (
      record { endpoint = refl; batch = ground (arith, h); requested = eligible_of_none e },
      plan_jobs-PlannedFor idx es,
    )
    | inr h ↦ rw h (
      record { endpoint = refl; batch = ground (arith, h); requested = eligible_of_none e },
      plan_jobs-PlannedFor (idx + 1) es,
    )
  ]
