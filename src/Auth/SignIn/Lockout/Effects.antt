-- ===== src/Auth/SignIn/Lockout/Effects.antt =====
-- What an attempt does to the failures of one user.
use rem0te.Auth.SignIn.Lockout.{attempt_time, attempt, is_wrong, misfits, Attempt, is_for}
use rem0te.Auth.SignIn.Mint.{admit_step_up, login, verify_step_up, Credential, SignIn, fits}
use rem0te.Auth.SignIn.{
  get_failures, Policy, admit_login, set_failures, clear_failures, locked_for, Failures, Site, User,
  left_of, usable_hash, next_failures, record_login_failure, LoginError, check_password,
}
use rem0te.Prelude.{
  [], ◌∷◌, some, true, false, refl, arith, inl, inr, not, ◌&&◌, ◌||◌, if◌then◌else◌, String, List,
  ℕ, str_eq, Option, ◌≡◌, Bool, ok, eq_iff, ◌==◌, ◌<◌, Bool-cases, err, Result-cases,
}

get-set :
    (id : String) (x : Failures) (fs : List (String × Failures))
    → get_failures id (set_failures id x fs) ≡ some x
unfolding get_failures set_failures
get-set id x [] = ground (arith, eq_iff id id)
get-set id x (f ∷ fs) = ground (arith, get-set id x fs, eq_iff id id)

get-set_other :
    (id other : String) (x : Failures) (fs : List (String × Failures))
    → str_eq other id ≡ false
    → get_failures id (set_failures other x fs) ≡ get_failures id fs
unfolding get_failures set_failures
get-set_other id other x [] n = ground arith
get-set_other id other x (f ∷ fs) n =
    ground (arith, get-set_other id other x fs n, eq_iff f.0 other, eq_iff f.0 id)

get-clear_other :
    (id other : String) (fs : List (String × Failures))
    → str_eq other id ≡ false
    → get_failures id (clear_failures other fs) ≡ get_failures id fs
unfolding get_failures clear_failures
get-clear_other id other [] n = refl
get-clear_other id other (f ∷ fs) n =
    ground (arith, get-clear_other id other fs n, eq_iff f.0 other, eq_iff f.0 id)

-- The failures of the user stay, or a wrong credential was tried that no lock kept off.
pub data Effect (p : Policy) (id : String) (now : ℕ) (o o' : Option Failures) (wrong : Bool)
    : Type 0 where
  kept : wrong ≡ false → o' ≡ o → Effect p id now o o' wrong
  failed :
      wrong ≡ true
      → (left_of now o == 0) ≡ true
      → o' ≡ some (next_failures p now o)
      → Effect p id now o o' wrong

pub admit_login-ok :
    (site : Site) (now : ℕ) (email : String) (fs : List (String × Failures)) (u : User) (h : String)
    → admit_login site now email fs ≡ ok (u, h)
    → (site.user email ≡ some u)
      × (usable_hash u.password_hash ≡ some h)
      × ((left_of now (get_failures u.id fs) == 0) ≡ true)
unfolding admit_login locked_for
admit_login-ok site now email fs u h e = ground arith

admit_step_up-ok :
    (site : Site) (now : ℕ) (id : String) (fs : List (String × Failures)) (u : User)
    → admit_step_up site now id fs ≡ ok u
    → (site.user_by_id id ≡ some u) × ((left_of now (get_failures u.id fs) == 0) ≡ true)
unfolding admit_step_up locked_for
admit_step_up-ok site now id fs u e = ground arith

module _ (p : Policy) (on : 0 < p.max) (id : String) (now : ℕ) (fs : List (String × Failures)) where
  -- One credential tried.
  after_try : User → Bool → List (String × Failures)
  after_try u fit = if fit then clear_failures u.id fs else record_login_failure p now u.id fs

  Effect-after_try :
      (u : User) (fit : Bool)
      → (left_of now (get_failures u.id fs) == 0) ≡ true
      → not (str_eq u.id id) || not fit ≡ true
      → Effect p id now
          (get_failures id fs)
          (get_failures id (after_try u fit))
          (not fit && str_eq u.id id)
  unfolding after_try record_login_failure
  Effect-after_try u fit l m = elim (Bool-cases (str_eq u.id id)) [
    | inl e ↦
        let same = (eq_iff u.id id).0 e in
        let wrong : fit ≡ false = ground arith in
        Effect.failed (ground arith) (rw same at l) (
          rw (wrong, same)
            (ground (arith, get-set id (next_failures p now (get_failures id fs)) fs)))
    | inr e ↦ Effect.kept (ground arith) (
        ground (
          arith,
          get-clear_other id u.id fs e,
          get-set_other id u.id (next_failures p now (get_failures u.id fs)) fs e,
        ))
  ]

effect_along :
    (p : Policy) (id : String) (now : ℕ) (fs fs' : List (String × Failures)) (b c c' : Bool)
    (r : Bool × List (String × Failures))
    → r ≡ (b, fs')
    → c' ≡ c
    → Effect p id now (get_failures id fs) (get_failures id fs') (b && c)
    → Effect p id now (get_failures id fs) (get_failures id r.1) (r.0 && c')
effect_along p id now fs fs' b c c' r e k h = rw (e, k) h

admit_login-err :
    (site : Site) (now : ℕ) (email : String) (fs : List (String × Failures)) (e : LoginError)
    → admit_login site now email fs ≡ err e
    → is_wrong {R = SignIn} (err e) ≡ false
unfolding admit_login
admit_login-err site now email fs e h = ground arith

admit_step_up-err :
    (site : Site) (now : ℕ) (id : String) (fs : List (String × Failures)) (e : LoginError)
    → admit_step_up site now id fs ≡ err e
    → is_wrong {R = Unit {0}} (err e) ≡ false
unfolding admit_step_up
admit_step_up-err site now id fs e h = ground arith

module _ (site : Site) (on : 0 < site.policy.max) (id : String) where
  login-Effect :
      (now : ℕ) (email password : String) (fs : List (String × Failures))
      → misfits site id (Attempt.by_login now email password) ≡ true
      → let r = attempt site (Attempt.by_login now email password) fs in
        Effect site.policy id now
          (get_failures id fs)
          (get_failures id r.1)
          (r.0 && is_for site id (Attempt.by_login now email password))
  unfolding attempt login check_password after_try
  login-Effect now email password fs m = elim (Result-cases (admit_login site now email fs)) [
    | inl (e, k) ↦
        Effect.kept (ground (arith, k, admit_login-err site now email fs e k)) (ground (arith, k))
    | inr ((u, h), k) ↦
        let (found, usable, free) = admit_login-ok site now email fs u h k in
        let fit = site.verify.password h password in
        let fits_not : not (str_eq u.id id) || not fit ≡ true = ground (arith, found, usable) in
        let run : attempt site (Attempt.by_login now email password) fs
            ≡ (not fit, after_try site.policy on id now fs u fit) =
          ground (arith, k) in
        let whose : is_for site id (Attempt.by_login now email password) ≡ str_eq u.id id =
          ground (arith, found) in
        effect_along site.policy id now fs (after_try site.policy on id now fs u fit) (not fit)
          (str_eq u.id id) (is_for site id (Attempt.by_login now email password))
          (attempt site (Attempt.by_login now email password) fs) run whose
          (Effect-after_try site.policy on id now fs u fit free fits_not)
  ]

  step_up-Effect :
      (now : ℕ) (user : String) (credential : Credential) (fs : List (String × Failures))
      → misfits site id (Attempt.by_step_up now user credential) ≡ true
      → let r = attempt site (Attempt.by_step_up now user credential) fs in
        Effect site.policy id now
          (get_failures id fs)
          (get_failures id r.1)
          (r.0 && is_for site id (Attempt.by_step_up now user credential))
  unfolding attempt verify_step_up after_try
  step_up-Effect now user credential fs m = elim (Result-cases (admit_step_up site now user fs)) [
    | inl (e, k) ↦
        Effect.kept (ground (arith, k, admit_step_up-err site now user fs e k)) (ground (arith, k))
    | inr (u, k) ↦
        let (found, free) = admit_step_up-ok site now user fs u k in
        let fit = fits site.verify u credential in
        let fits_not : not (str_eq u.id id) || not fit ≡ true = ground (arith, found) in
        let run : attempt site (Attempt.by_step_up now user credential) fs
            ≡ (not fit, after_try site.policy on id now fs u fit) =
          ground (arith, k) in
        let whose : is_for site id (Attempt.by_step_up now user credential) ≡ str_eq u.id id =
          ground (arith, found) in
        effect_along site.policy id now fs (after_try site.policy on id now fs u fit) (not fit)
          (str_eq u.id id) (is_for site id (Attempt.by_step_up now user credential))
          (attempt site (Attempt.by_step_up now user credential) fs) run whose
          (Effect-after_try site.policy on id now fs u fit free fits_not)
  ]

  pub attempt-Effect :
      (a : Attempt) (fs : List (String × Failures))
      → misfits site id a ≡ true
      → Effect site.policy id
          (attempt_time a)
          (get_failures id fs)
          (get_failures id (attempt site a fs).1)
          ((attempt site a fs).0 && is_for site id a)
  attempt-Effect (Attempt.by_login now email password) fs m = login-Effect now email password fs m
  attempt-Effect (Attempt.by_step_up now user credential) fs m =
      step_up-Effect now user credential fs m
