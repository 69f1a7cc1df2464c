-- ===== src/Auth/SignIn/Lockout.antt =====
-- Attempts on a password, or on the credential of a step-up.
pub mod Effects
pub mod Bound
use rem0te.Auth.SignIn.Mint.{login, verify_step_up, Credential, fits}
use rem0te.Auth.SignIn.{
  invalid_password, step_up_failed, Site, LoginError, User, Failures, usable_hash, window,
}
use rem0te.Prelude.{
  [], ◌∷◌, none, some, true, false, ◌>>=◌, ◌>>◌, refl, arith, inl, inr, not, ◌&&◌, ◌||◌, ap, sym,
  ◌∙◌, is_some, is_nil, any, all, if◌then◌else◌, Result, ℕ, Option, String, List, Bool, err, str_eq,
  ◌+◌, ◌≤◌, ◌<◌, ◌≡◌,
}

-- One request that can fail for a wrong credential.
pub data Attempt : Type 0 where
  by_login : (now : ℕ) (email password : String) → Attempt
  by_step_up : (now : ℕ) (id : String) (credential : Credential) → Attempt

abbrev pub attempt_time : Attempt → ℕ
attempt_time (Attempt.by_login now email password) = now
attempt_time (Attempt.by_step_up now id credential) = now

abbrev pub is_wrong : {R : Type 0} → Result LoginError R → Bool
is_wrong (err invalid_password) = true
is_wrong (err step_up_failed) = true
is_wrong _ = false

abbrev pub user_of : Site → Attempt → Option User
user_of site (Attempt.by_login now email password) = site.user email
user_of site (Attempt.by_step_up now id credential) = site.user_by_id id

-- Is the attempt by this user?
abbrev pub is_for : Site → String → Attempt → Bool
is_for site id a = elim (user_of site a) [ none ↦ false | some u ↦ str_eq u.id id ]

-- Was a credential tried and did not fit? And the failures afterwards.
unfoldable pub attempt : Site → Attempt → List (String × Failures) → Bool × List (String × Failures)
unfolding login verify_step_up
attempt site (Attempt.by_login now email password) fs =
    let (r, fs') = login site now email password fs in (is_wrong r, fs')
attempt site (Attempt.by_step_up now id credential) fs =
    let (r, fs') = verify_step_up site now id credential fs in (is_wrong r, fs')

-- The attempts, one after the other, and how many of them tried a credential of this user that
-- did not fit.
unfoldable pub wrong_tries : Site → String → List Attempt → List (String × Failures) → ℕ
unfolding attempt
wrong_tries site id [] fs = 0
wrong_tries site id (a ∷ rest) fs =
    let (wrong, fs') = attempt site a fs in
    let later = wrong_tries site id rest fs' in
    if wrong && is_for site id a then 1 + later else later

-- The credential, if it is for this user, is a wrong one.
abbrev pub misfits : Site → String → Attempt → Bool
misfits site id (Attempt.by_login now email password) = elim (site.user email) [
  | none ↦ true
  | some u ↦ elim (usable_hash u.password_hash) [
    | none ↦ true
    | some h ↦ not (str_eq u.id id) || not (site.verify.password h password)
  ]
]
misfits site id (Attempt.by_step_up now user credential) = elim (site.user_by_id user) [
  | none ↦ true
  | some u ↦ not (str_eq u.id id) || not (fits site.verify u credential)
]

-- The attempt lies in the time from `start` on that is as long as a lock, and is no right one.
pub record IsGuess (site : Site) (id : String) (start : ℕ) (a : Attempt) : Type 0 where
  pub since : start ≤ attempt_time a
  pub before : attempt_time a < start + window site.policy
  pub is_misfit : misfits site id a ≡ true
