-- ===== src/Auth/SignIn.antt =====
-- Signing in: apps/api/src/auth/auth.service.ts. The rows and settings of the database are given, and
-- a token is its payload. The failed attempts are the map in the process, by the user's id.
use Prim.Native.Char.{code}
use rem0te.Rbac.Capability.{RoleType}
use rem0te.Prelude.Json.{Json}
use rem0te.Prelude.{
  [], ◌∷◌, none, some, true, false, ◌>>=◌, ◌>>◌, refl, arith, inl, inr, not, ◌&&◌, ◌||◌, ap, sym,
  ◌∙◌, is_some, is_nil, any, all, String, Option, ℕ, Bool, ◌*◌, ◌+◌, List, Result, err,
  if◌then◌else◌, leb, ◌==◌, ok, ltb, str_eq, ◌-◌, ◌/◌, throw_if,
}
use rem0te.Auth.Jwt.{UserStatus, truthy}
pub mod Mint
pub mod Lockout
pub mod Tokens
mod Tests

pub record Failures : Type 0 where
  pub count : ℕ
  pub locked_until : ℕ

pub record Policy : Type 0 where
  pub max : ℕ
  pub minutes : ℕ

-- The argon2 and TOTP libraries: does a password fit a hash, and a code a user's method?
pub record Verifier : Type 0 where
  pub password : String → String → Bool
  pub totp : String → String → Bool

-- An active membership of a user.
pub record LoginMembership : Type 0 where
  pub tenant_id : String
  pub customer_id : Option String
  pub capabilities : Json
  pub role : RoleType

pub record User : Type 0 where
  pub id : String
  pub email : String
  pub status : UserStatus
  pub password_hash : Option String
  pub is_platform_admin : Bool
  pub sessions_valid_after : Option ℕ
  pub memberships : List LoginMembership
  pub has_totp : Bool  -- `mfaMethods.length > 0`

-- `user` finds a row by the e-mail that was typed, in lower case; `require_mfa` is the setting of a
-- tenant, and `container` the oldest active tenant.
pub record Site : Type 0 where
  pub user : String → Option User
  pub user_by_id : String → Option User
  pub require_mfa : String → Bool
  pub container : Option String
  pub policy : Policy
  pub verify : Verifier

pub data LoginError : Type 0 where
  user_not_found suspended invited deleted locked_out no_password invalid_password : LoginError
  bad_partial_token not_partial invalid_totp step_up_failed not_active : LoginError
  too_short wrong_password : LoginError

unfoldable pub get_failures : String → List (String × Failures) → Option Failures
get_failures id [] = none
get_failures id (f ∷ fs) = let rest = get_failures id fs in if str_eq f.0 id then some f.1 else rest

unfoldable pub set_failures :
    String → Failures → List (String × Failures) → List (String × Failures)
set_failures id x [] = (id, x) ∷ []
set_failures id x (f ∷ fs) =
    let rest = set_failures id x fs in if str_eq f.0 id then (id, x) ∷ fs else f ∷ rest

unfoldable pub clear_failures : String → List (String × Failures) → List (String × Failures)
clear_failures id [] = []
clear_failures id (f ∷ fs) =
    let rest = clear_failures id fs in if str_eq f.0 id then rest else f ∷ rest

abbrev pub window : Policy → ℕ
window p = p.minutes * 60000

-- the seconds that are left of a lock, rounded up
abbrev pub left_of : ℕ → Option Failures → ℕ
left_of now none = 0
left_of now (some f) = if leb f.locked_until now then 0 else (f.locked_until - now + 999) / 1000

unfoldable pub locked_for : ℕ → String → List (String × Failures) → ℕ
unfolding get_failures
locked_for now id fs = left_of now (get_failures id fs)

-- the earlier failures that still count
abbrev pub counted : ℕ → ℕ → Option Failures → ℕ
counted now w none = 0
counted now w (some f) = if ltb now (f.locked_until + w) then f.count else 0

unfoldable pub next_failures : Policy → ℕ → Option Failures → Failures
next_failures p now o =
    let n = counted now (window p) o + 1 in
    record { count = n; locked_until = if leb p.max n then now + window p else now }

unfoldable pub record_login_failure :
    Policy → ℕ → String → List (String × Failures) → List (String × Failures)
unfolding next_failures get_failures set_failures
record_login_failure p now id fs =
    if p.max == 0 then fs else set_failures id (next_failures p now (get_failures id fs)) fs

abbrev is_bang : String → Bool
is_bang String.[] = false
is_bang (String.◌∷◌ c s) = code c == b'!'

-- a password hash that is there and not the mark of an account without one
abbrev pub usable_hash : Option String → Option String
usable_hash o = elim (truthy o) [ none ↦ none | some h ↦ if is_bang h then none else some h ]

abbrev pub found_user : LoginError → Option User → Result LoginError User
found_user e none = err e
found_user e (some u) = ok u

abbrev pub may_log_in : UserStatus → Result LoginError (Unit {0})
may_log_in UserStatus.suspended = err suspended
may_log_in UserStatus.invited = err invited
may_log_in UserStatus.deleted = err deleted
may_log_in UserStatus.active = ok tt

abbrev pub some_hash : Option String → Result LoginError String
some_hash o = elim (usable_hash o) [ none ↦ err no_password | some h ↦ ok h ]

-- The checks of `login` up to the password: the user, and the hash to try it on.
unfoldable pub admit_login :
    Site → ℕ → String → List (String × Failures) → Result LoginError (User × String)
unfolding locked_for
admit_login site now email fs = do
  u ← found_user user_not_found (site.user email)
  may_log_in u.status
  throw_if (not (locked_for now u.id fs == 0)) locked_out
  h ← some_hash u.password_hash
  ok (u, h)

-- `login` up to `startSession`.
unfoldable pub check_password :
    Site
    → ℕ
    → String
    → String
    → List (String × Failures)
    → Result LoginError User × List (String × Failures)
unfolding admit_login record_login_failure clear_failures
check_password site now email password fs = elim (admit_login site now email fs) [
  | err e ↦ (err e, fs)
  | ok p ↦
      if site.verify.password p.1 password
      then (ok p.0, clear_failures p.0.id fs)
      else (err invalid_password, record_login_failure site.policy now p.0.id fs)
]
