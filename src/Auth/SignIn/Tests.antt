-- ===== src/Auth/SignIn/Tests.antt =====
-- A user of one business who signs in by a password.
use rem0te.Auth.SignIn.Tokens.{
  validate-start_session, IsProved, login-IsProved, change_password-ends,
}
use rem0te.Rbac.Capability.{RoleType}
use rem0te.Auth.SignIn.Lockout.Bound.{wrong_tries-le}
use rem0te.Auth.Revocation.{revocation_instant, issue_at, is_revoked}
use rem0te.Prelude.Json.{Json, Items}
use rem0te.Auth.SignIn.{
  Site, User, check_password, admit_login, locked_for, record_login_failure, get_failures,
  next_failures, clear_failures, set_failures,
}
use rem0te.Rbac.Actor.{Membership}
use rem0te.Auth.SignIn.Mint.{
  change_password, start_session, login, issue_full_token, Credential, verify_step_up,
  admit_step_up,
}
use rem0te.Auth.SignIn.Lockout.{attempt, wrong_tries, Attempt}
use rem0te.Auth.Jwt.{Rows, JwtPayload, Account, validate, UserStatus, Header, session_ended}
use rem0te.Prelude.{
  [], ◌∷◌, none, some, true, false, refl, arith, Option, List, str_eq, ℕ, ◌≤◌, ◌≡◌, ok, err,
}

abbrev tess : User
tess = record {
  id = "tess";
  email = "tess@acme.test";
  status = UserStatus.active;
  password_hash = some "hash";
  is_platform_admin = false;
  sessions_valid_after = none;
  memberships =
      record {
        tenant_id = "t1";
        customer_id = some "acme";
        capabilities = Json.array Items.nil;
        role = RoleType.business_user;
      }
      ∷ [];
  has_totp = false;
}

abbrev site : Site
site = record {
  user = λ e. some tess;
  user_by_id = λ e. some tess;
  require_mfa = λ t. false;
  container = some "t1";
  policy = record { max = 1; minutes = 15 };
  verify = record { password = λ h p. str_eq p "right password"; totp = λ u c. false };
}

abbrev guesses : List Attempt
guesses =
    Attempt.by_login 5000 "tess@acme.test" "guess"
    ∷ Attempt.by_step_up 6000 "tess" (Credential.password_of "guess")
    ∷ []

wrong_tries-le_example : wrong_tries site "tess" guesses [] ≤ 1
wrong_tries-le_example = wrong_tries-le site "tess" 5000 guesses [] (omega arith) (
  record { since = omega arith; before = omega arith; is_misfit = refl },
  (record { since = omega arith; before = omega arith; is_misfit = refl }, tt),
)

-- The second guess meets the lock.
one_try : wrong_tries site "tess" guesses [] ≡ 1
unfolding wrong_tries attempt login check_password admit_login locked_for record_login_failure
    next_failures verify_step_up admit_step_up set_failures get_failures
one_try = refl

abbrev token : JwtPayload
token =
    issue_full_token 5000 tess (some "t1") (some RoleType.business_user) (some "acme")
      (Json.array Items.nil)

login-IsProved_example : IsProved site 5000 "tess@acme.test" "right password" []
unfolding login check_password admit_login locked_for start_session get_failures clear_failures
login-IsProved_example = login-IsProved site 5000 "tess@acme.test" "right password" [] [] token refl

abbrev account_row : Account
account_row = record {
  status = UserStatus.active;
  is_platform_admin = false;
  sessions_valid_after = none;
  platform_permissions = Json.null;
}

abbrev membership_row : Membership
membership_row = record {
  customer = some (record { id = "acme"; is_active = true; is_archived = false });
  capabilities = Json.null;
  role = RoleType.business_user;
}

abbrev rows : Option ℕ → Rows
rows v = record {
  user = λ s. some (record account_row { sessions_valid_after = v });
  active_membership = λ s. some membership_row;
  tenant = λ t. some true;
  membership = λ s t. some (true, membership_row);
  scopes = λ s. [];
}

validate-start_session_example :
    (q : JwtPayload) × (validate (rows none) Header.absent none token ≡ ok q) × (q.sub ≡ "tess")
unfolding start_session
validate-start_session_example =
    validate-start_session site 5000 tess
      (record {
        tenant_id = "t1";
        customer_id = some "acme";
        capabilities = Json.array Items.nil;
        role = RoleType.business_user;
      })
      false token (rows none) Header.absent none refl refl
      (record {
        account = account_row;
        membership = membership_row;
        found = refl;
        is_active = refl;
        same_revocation = refl;
        named = refl;
        tenant_active = refl;
        is_member = refl;
        is_open = refl;
      })

-- The password was changed at 7000.
abbrev changed_user : User
changed_user = record tess {
  password_hash = some "new hash";
  sessions_valid_after = some (revocation_instant 7000);
}

abbrev next_token : JwtPayload
next_token =
    issue_full_token 7001 changed_user (some "t1") (some RoleType.business_user) (some "acme")
      (Json.array Items.nil)

change_password-ends_example :
    (validate (rows (some (revocation_instant 7000))) Header.absent none token ≡ err session_ended)
    × (next_token.sub ≡ "tess")
    × (next_token.partial ≡ false)
    × (is_revoked next_token.iat (some (revocation_instant 7000)) ≡ false)
unfolding change_password issue_full_token issue_at
change_password-ends_example =
    change_password-ends site (λ p. "new hash") 7000 7001 5000 "tess" "right password"
      "a new password" changed_user next_token token (rows (some (revocation_instant 7000)))
      Header.absent none
      (record account_row { sessions_valid_after = some (revocation_instant 7000) }) refl refl refl
      refl refl refl refl (omega arith)
