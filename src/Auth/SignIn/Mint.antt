-- ===== src/Auth/SignIn/Mint.antt =====
-- The tokens of a sign-in: `startSession`, `signInVerifiedUser`, `verifyMfaAndLogin`,
-- `changePassword`, `verifyStepUp` and `revokeSessions` of apps/api/src/auth/auth.service.ts.
use rem0te.Auth.ApiKeys.{is_active_status}
use rem0te.Rbac.Capability.{RoleType}
use rem0te.Prelude.Json.{Json, Items}
use rem0te.Auth.Jwt.{JwtPayload, truthy}
use rem0te.Auth.Revocation.{revocation_instant, issue_at}
use rem0te.Auth.SignIn.{
  Verifier, locked_for, check_password, record_login_failure, Site, User, clear_failures,
  LoginMembership, LoginError, Failures, found_user, bad_partial_token, user_not_found, not_partial,
  invalid_totp, may_log_in, too_short, locked_out, some_hash, wrong_password, not_active,
  step_up_failed,
}
use rem0te.Prelude.{
  if◌then◌else◌, [], ◌∷◌, none, some, true, false, ◌>>=◌, ◌>>◌, not, ◌&&◌, ◌||◌, ℕ, String, Option,
  List, Result, Bool, ◌/◌, err, throw_if, ◌+◌, ltb, ok, length, ◌==◌, codes, str_eq,
}

-- `issueFullToken`, at `now`
unfoldable pub issue_full_token :
    ℕ → User → Option String → Option RoleType → Option String → Json → JwtPayload
unfolding issue_at
issue_full_token now u tenant role business capabilities = record {
  sub = u.id;
  email = u.email;
  tenant_id = tenant;
  business_id = business;
  role_type = role;
  is_platform_admin = u.is_platform_admin;
  mfa_verified = true;
  capabilities = capabilities;
  customer_id = business;
  partial = false;
  iat = some (issue_at u.sessions_valid_after now);
  exp = none;
  own_business_id = none;
  technician = none;
  assigned_business_ids = [];
  platform_permissions = [];
}

-- the token between the password and the second factor
abbrev pub partial_token : ℕ → User → Option String → Option RoleType → JwtPayload
partial_token now u tenant role = record {
  sub = u.id;
  email = u.email;
  tenant_id = tenant;
  business_id = none;
  role_type = role;
  is_platform_admin = u.is_platform_admin;
  mfa_verified = false;
  capabilities = Json.undefined;
  customer_id = none;
  partial = true;
  iat = some (now / 1000);
  exp = some (now / 1000 + 600);
  own_business_id = none;
  technician = none;
  assigned_business_ids = [];
  platform_permissions = [];
}

pub data SignIn : Type 0 where
  signed_in : JwtPayload → SignIn
  needs_mfa : Bool → JwtPayload → SignIn

-- What a membership gives a token: with several there is none to pick.
pub record Place : Type 0 where
  pub tenant_id : Option String
  pub role_type : Option RoleType
  pub business_id : Option String
  pub capabilities : Json

abbrev pub place_of : Site → List LoginMembership → Place
place_of site [] = record {
  tenant_id = site.container;
  role_type = none;
  business_id = none;
  capabilities = Json.array Items.nil;
}
place_of site (m ∷ []) = record {
  tenant_id = some m.tenant_id;
  role_type = some m.role;
  business_id = m.customer_id;
  capabilities = m.capabilities;
}
place_of site (m ∷ n ∷ ms) = record {
  tenant_id = none;
  role_type = none;
  business_id = none;
  capabilities = Json.array Items.nil;
}

abbrev pub requires_mfa : Site → Option String → Bool
requires_mfa site none = false
requires_mfa site (some t) = site.require_mfa t

unfoldable pub start_session : Site → ℕ → User → Bool → SignIn
unfolding issue_full_token
start_session site now u mfa_satisfied =
    let p = place_of site u.memberships in
    if not mfa_satisfied && (u.has_totp || requires_mfa site (truthy p.tenant_id))
    then needs_mfa u.has_totp (partial_token now u p.tenant_id p.role_type)
    else signed_in (issue_full_token now u p.tenant_id p.role_type p.business_id p.capabilities)

abbrev then_start :
    Site
    → ℕ
    → Result LoginError User × List (String × Failures)
    → Result LoginError SignIn × List (String × Failures)
then_start site now (err e, fs) = (err e, fs)
then_start site now (ok u, fs) = (ok (start_session site now u false), fs)

unfoldable pub login :
    Site
    → ℕ
    → String
    → String
    → List (String × Failures)
    → Result LoginError SignIn × List (String × Failures)
unfolding check_password start_session
login site now email password fs = then_start site now (check_password site now email password fs)

-- A user whose identity an identity provider or a passkey proved.
unfoldable pub sign_in_verified_user :
    Site → ℕ → String → Bool → List (String × Failures) → Result LoginError SignIn
unfolding locked_for start_session
sign_in_verified_user site now id mfa_satisfied fs = do
  u ← found_user user_not_found (site.user_by_id id)
  may_log_in u.status
  throw_if (not (locked_for now u.id fs == 0)) locked_out
  ok (start_session site now u mfa_satisfied)

abbrev partial_payload : Option JwtPayload → Result LoginError JwtPayload
partial_payload none = err bad_partial_token
partial_payload (some p) = ok p

unfoldable pub membership_of : Option String → List LoginMembership → Option LoginMembership
membership_of none [] = none
membership_of none (m ∷ ms) = some m
membership_of (some t) [] = none
membership_of (some t) (m ∷ ms) =
    let rest = membership_of (some t) ms in if str_eq m.tenant_id t then some m else rest

abbrev place_in : JwtPayload → Option LoginMembership → Place
place_in p none = record {
  tenant_id = p.tenant_id;
  role_type = p.role_type;
  business_id = none;
  capabilities = Json.array Items.nil;
}
place_in p (some m) = record {
  tenant_id = p.tenant_id;
  role_type = some m.role;
  business_id = m.customer_id;
  capabilities = m.capabilities;
}

-- The payload is the partial token's, if it is signed with its own key and not expired.
unfoldable pub verify_mfa_and_login :
    Site → ℕ → Option JwtPayload → String → Result LoginError JwtPayload
unfolding issue_full_token membership_of
verify_mfa_and_login site now verified code = do
  p ← partial_payload verified
  throw_if (not p.partial) not_partial
  u ← found_user user_not_found (site.user_by_id p.sub)
  throw_if (not (site.verify.totp u.id code)) invalid_totp
  let place = place_in p (membership_of (truthy p.tenant_id) u.memberships)
  ok (issue_full_token now u place.tenant_id place.role_type place.business_id place.capabilities)

-- The credential of a step-up: a TOTP code that is not empty, or else a password that is not.
pub data Credential : Type 0 where
  code_of : String → Credential
  password_of : String → Credential
  nothing : Credential

abbrev pub fits : Verifier → User → Credential → Bool
fits v u (code_of c) = v.totp u.id c
fits v u (password_of p) = elim (truthy u.password_hash) [ none ↦ false | some h ↦ v.password h p ]
fits v u nothing = false

unfoldable pub admit_step_up : Site → ℕ → String → List (String × Failures) → Result LoginError User
unfolding locked_for
admit_step_up site now id fs = do
  u ← found_user not_active (site.user_by_id id)
  throw_if (not (is_active_status u.status)) not_active
  throw_if (not (locked_for now u.id fs == 0)) locked_out
  ok u

unfoldable pub verify_step_up :
    Site
    → ℕ
    → String
    → Credential
    → List (String × Failures)
    → Result LoginError (Unit {0}) × List (String × Failures)
unfolding admit_step_up record_login_failure clear_failures
verify_step_up site now id credential fs = elim (admit_step_up site now id fs) [
  | err e ↦ (err e, fs)
  | ok u ↦
      if fits site.verify u credential
      then (ok tt, clear_failures u.id fs)
      else (err step_up_failed, record_login_failure site.policy now u.id fs)
]

abbrev place_after : Site → User → List LoginMembership → Place
place_after site u [] = record {
  tenant_id = if u.is_platform_admin then site.container else none;
  role_type = none;
  business_id = none;
  capabilities = Json.array Items.nil;
}
place_after site u (m ∷ ms) = record {
  tenant_id = some m.tenant_id;
  role_type = some m.role;
  business_id = m.customer_id;
  capabilities = m.capabilities;
}

-- The user's row as it is after, and the token that the caller goes on with, which is minted at
-- `later`; `hash` is argon2's.
unfoldable pub change_password :
    Site
    → (String → String)
    → ℕ
    → ℕ
    → String
    → String
    → String
    → Result LoginError (User × JwtPayload)
unfolding issue_full_token revocation_instant
change_password site hash now later id current new = do
  throw_if (ltb (length (codes new)) 12) too_short
  u ← found_user user_not_found (site.user_by_id id)
  h ← some_hash u.password_hash
  throw_if (not (site.verify.password h current)) wrong_password
  let u' : User = record u {
    password_hash = some (hash new);
    sessions_valid_after = some (revocation_instant now);
  }
  let place = place_after site u u.memberships
  ok (
    u',
    issue_full_token later u' place.tenant_id place.role_type place.business_id place.capabilities,
  )

unfoldable pub revoke_sessions : ℕ → User → User
unfolding revocation_instant
revoke_sessions now u = record u { sessions_valid_after = some (revocation_instant now) }
