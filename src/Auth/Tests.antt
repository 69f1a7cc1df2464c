-- ===== src/Auth/Tests.antt =====
-- A revocation, a step-up cookie, two tokens of one user and a key, at concrete values.
use rem0te.Rbac.Platform.{sanitize_platform_permissions}
use rem0te.Rbac.Technician.{Business, get_scope}
use rem0te.Rbac.Actor.{Membership, pick_technician}
use rem0te.Rbac.Capability.{RoleType}
use rem0te.Prelude.Json.{Json, Items}
use rem0te.Auth.Revocation.{is_revoked}
use rem0te.Auth.StepUp.{Proof, Codec, step_up_ttl}
use rem0te.Auth.Jwt.{
  JwtPayload, UserStatus, Account, Rows, Header, validate, request_actor, session, account,
  standing, tenanted, admit, resolve_extras,
}
use rem0te.Auth.Jwt.Claims.{validate-claims}
use rem0te.Auth.Jwt.Reach.{validate-IsLive, IsLive, IsMemberOf}
use rem0te.Prelude.{
  refl, true, false, some, none, [], ◌≡◌, ◌+◌, map_ok, String, inl, trim, ◌⊎◌, ◌≢◌, Option, ℕ,
}

-- A codec of one cookie: the proof that it holds comes back from its body.
abbrev proof : Proof
proof = record { sub = "tess"; sid = some 7; exp = some (1000 + step_up_ttl); m = "totp" }

abbrev codec : Codec
codec = record { sign = λ s. "mac"; print = λ p. "body"; parse = λ s. some proof }

abbrev cookie_text : String
cookie_text = "body.mac"

abbrev signed_in : Option (String × Option ℕ)
signed_in = some ("tess", some 7)

abbrev acme : Business
acme = record { id = "acme"; is_active = true; is_archived = false }

abbrev tess : Account
tess = record {
  status = UserStatus.active;
  is_platform_admin = false;
  sessions_valid_after = some 3000;
  platform_permissions = Json.null;
}

abbrev tess_membership : Membership
tess_membership = record {
  customer = some acme;
  capabilities = Json.null;
  role = RoleType.business_user;
}

abbrev rows : Rows
rows = record {
  user = λ s. some tess;
  active_membership = λ s. some tess_membership;
  tenant = λ t. some true;
  membership = λ s t. some (true, tess_membership);
  scopes = λ s. [];
}

abbrev token : JwtPayload
token = record {
  sub = "tess";
  email = "tess@acme.test";
  tenant_id = some "t1";
  business_id = some "acme";
  role_type = some RoleType.business_user;
  is_platform_admin = false;
  mfa_verified = true;
  capabilities = Json.null;
  customer_id = none;
  partial = false;
  iat = some 7;
  exp = none;
  own_business_id = none;
  technician = none;
  assigned_business_ids = [];
  platform_permissions = [];
}

-- the same, with claims made up
abbrev forged : JwtPayload
forged = record token {
  business_id = some "globex";
  role_type = some RoleType.business_owner;
  is_platform_admin = true;
}

validate-claims_example :
    map_ok request_actor (validate rows Header.absent none token)
    ≡ map_ok request_actor (validate rows Header.absent none forged)
validate-claims_example =
    validate-claims rows Header.absent none token forged refl refl refl refl (inl (λ e. cc))

abbrev accepted : JwtPayload
accepted = record token {
  capabilities = Json.array Items.nil;
  customer_id = some "acme";
  own_business_id = some "acme";
}

validate-IsLive_example :
    IsLive rows token × (IsMemberOf rows token "acme" ⊎ (get_scope "acme" [] ≢ none))
unfolding validate account standing tenanted admit session resolve_extras pick_technician get_scope
    sanitize_platform_permissions is_revoked request_actor trim
validate-IsLive_example =
    validate-IsLive rows Header.absent none token accepted "acme" refl refl refl
