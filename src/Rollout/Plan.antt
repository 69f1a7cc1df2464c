-- ===== src/Rollout/Plan.antt =====
-- How `create` of apps/api/src/admin/update-rollout.service.ts plans a rollout: the checks of the
-- request, and one job for each computer. What the database and GitHub answer is given.
pub mod Batches
use rem0te.Schedule.{Intl, AccessSchedule}
use rem0te.Schedule.Parse.{parse_schedule, ok, thrown}
use rem0te.Rollout.Version.{Verdict, compare_versions}
use rem0te.Rollout.Data.{Component, rustdesk, agent}
use rem0te.Prelude.{
  ℕ, zero, suc, ◌+◌, ◌-◌, ◌*◌, ◌/◌, ◌≡◌, ◌≢◌, ◌≤◌, refl, Bool, true, false, not, ◌&&◌, ◌||◌, Option,
  none, some, List, [], ◌∷◌, String, str_eq, eq_iff, arith, ltb, leb, ◌==◌, if◌then◌else◌, any, All,
  codes, get_or, trim, is_some, Bool-cases, inl, inr,
}
use rem0te.Prelude.Json.{Json}

pub data SkipReason : Type 0 where
  already_in_another_rollout platform_not_supported device_not_authenticated : SkipReason
  already_on_target newer_than_target : SkipReason

pub record Computer : Type 0 where
  pub id : String
  pub platform : Option String
  pub agent_version : Option String
  pub rustdesk_version : Option String
  pub has_secret : Bool

pub record Planned : Type 0 where
  pub endpoint_id : String
  pub batch : ℕ
  pub skip : Option SkipReason
  pub old_version : Option String

-- what the regular expression `/windows/i` looks for
abbrev lower : ℕ → ℕ
lower c = if leb b'A' c && leb c b'Z' then c + 32 else c

starts_with : List ℕ → List ℕ → Bool
starts_with [] cs = true
starts_with (p ∷ ps) [] = false
starts_with (p ∷ ps) (c ∷ cs) = p == lower c && starts_with ps cs

contains : List ℕ → List ℕ → Bool
unfolding starts_with
contains ps [] = starts_with ps []
contains ps (c ∷ cs) = starts_with ps (c ∷ cs) || contains ps cs

unfoldable pub is_windows : Option String → Bool
unfolding contains
is_windows p = contains (codes "windows") (codes (get_or p ""))

abbrev is_digit : ℕ → Bool
is_digit c = leb b'0' c && leb c b'9'

-- `TAG_RE`: `dots` more groups follow the one at hand, which has a digit already if `started`
tag_from : ℕ → Bool → List ℕ → Bool
tag_from dots started [] = started && dots == 0
tag_from zero started (c ∷ cs) = is_digit c && tag_from zero true cs
tag_from (suc dots) started (c ∷ cs) =
    is_digit c && tag_from (suc dots) true cs || started && c == b'.' && tag_from dots false cs

unfoldable pub is_tag : String → Bool
unfolding tag_from
is_tag s = tag_from 2 false (codes s)

abbrev pub from_version : Component → Computer → Option String
from_version rustdesk e = e.rustdesk_version
from_version agent e = e.agent_version

-- the verdict on a version that is there, and not the empty text
abbrev pub verdict_on : Option String → String → Option Verdict
verdict_on none target = none
verdict_on (some String.[]) target = none
verdict_on (some v) target = some (compare_versions v target)

abbrev pub is_same : Option Verdict → Bool
is_same (some Verdict.same) = true
is_same _ = false

abbrev is_newer : Option Verdict → Bool
is_newer (some Verdict.newer) = true
is_newer _ = false

abbrev is_rustdesk : Component → Bool
is_rustdesk rustdesk = true
is_rustdesk agent = false

abbrev pub among : String → List String → Bool
among id ids = any (λ x. str_eq x id) ids

-- `busy` holds the computers with a job of the component that is not done.
module _ (component : Component) (target : String) (busy pilots : List String) (size : ℕ) where
  unfoldable pub skip_reason : Computer → Option SkipReason
  unfolding any
  skip_reason e =
      let verdict = verdict_on (from_version component e) target in
      if among e.id busy
      then some SkipReason.already_in_another_rollout
      else if not (is_windows e.platform)
      then some SkipReason.platform_not_supported
      else if not e.has_secret
      then some SkipReason.device_not_authenticated
      else if is_same verdict
      then some SkipReason.already_on_target
      else if is_rustdesk component && is_newer verdict
      then some SkipReason.newer_than_target
      else none

  abbrev pub planned : ℕ → Computer → Planned
  planned batch e = record {
    endpoint_id = e.id;
    batch = batch;
    skip = skip_reason e;
    old_version = from_version component e;
  }

  -- The loop over the computers: `idx` counts those outside the pilot group.
  unfoldable pub plan_jobs : ℕ → List Computer → List Planned
  unfolding skip_reason any
  plan_jobs idx [] = []
  plan_jobs idx (e ∷ es) =
      if among e.id pilots
      then planned 0 e ∷ plan_jobs idx es
      else planned (1 + idx / size) e ∷ plan_jobs (idx + 1) es

abbrev pub clamp_number : ℕ → ℕ → ℕ → ℕ
clamp_number lo hi n =
    if ltb (if ltb n hi then n else hi) lo then lo else if ltb n hi then n else hi

pub record RolloutInput : Type 0 where
  pub component : Component
  pub target_version : String
  pub batch_size : Option ℕ
  pub failure_threshold : Option ℕ
  pub max_attempts : Option ℕ
  pub backoff_minutes : Option ℕ
  pub verify_timeout_minutes : Option ℕ
  pub maintenance_window : Json
  pub defer_on_unknown_session : Option Bool
  pub allow_signature_only : Bool

-- What `create` writes: a draft and its jobs.
pub record Draft : Type 0 where
  pub target_version : String
  pub artifact_sha256 : Option String
  pub batch_size : ℕ
  pub failure_threshold : ℕ
  pub max_attempts : ℕ
  pub backoff_minutes : ℕ
  pub verify_timeout_minutes : ℕ
  pub maintenance_window : Option AccessSchedule
  pub defer_on_unknown_session : Bool
  pub jobs : List Planned

pub data Created : Type 0 where
  created : Draft → Created
  bad_request not_found : Created

abbrev pub is_empty {ℓ} : {A : Type ℓ} → List A → Bool
is_empty [] = true
is_empty (_ ∷ _) = false

-- `sha256` is GitHub's digest of a tag, `current` this server's version, and `pilots` the members
-- of the pilot group: none if a group is named that is not there.
module _ (intl : Intl) (sha256 : String → Option String) (current : String)
    (computers : List Computer) (busy : List String) (pilots : Option (List String)) where
  unfoldable pub is_refused : RolloutInput → String → Bool
  is_refused input target = elim input.component [
    | rustdesk ↦ not (is_some (sha256 target)) && not input.allow_signature_only
    | agent ↦ not (str_eq target current)
  ]

  unfoldable pub draft : RolloutInput → String → Option AccessSchedule → List String → Draft
  unfolding plan_jobs
  draft input target window members =
      let size = clamp_number 1 500 (get_or input.batch_size 10) in
      record {
        target_version = target;
        artifact_sha256 = if is_rustdesk input.component then sha256 target else none;
        batch_size = size;
        failure_threshold = clamp_number 0 1000 (get_or input.failure_threshold 1);
        max_attempts = clamp_number 1 10 (get_or input.max_attempts 3);
        backoff_minutes = clamp_number 5 1440 (get_or input.backoff_minutes 30);
        verify_timeout_minutes = clamp_number 15 1440 (get_or input.verify_timeout_minutes 60);
        maintenance_window = window;
        defer_on_unknown_session = get_or input.defer_on_unknown_session true;
        jobs = plan_jobs input.component target busy members size 0 computers;
      }

  unfoldable pub create : RolloutInput → Created
  unfolding draft is_refused is_tag
  create input =
      let target = trim input.target_version in
      if not (is_tag target) || is_refused input target
      then bad_request
      else elim (parse_schedule intl input.maintenance_window) [
        | thrown e ↦ bad_request
        | ok window ↦ if is_empty computers then not_found else elim pilots [
          | none ↦ not_found
          | some members ↦ created (draft input target window members)
        ]
      ]
