-- ===== src/Auth/Jwt.antt =====
-- apps/api/src/auth/strategies/jwt.strategy.ts: who a request with a verified token is, and what the
-- claims of the token count for. The rows of the database are given.
pub mod Claims
pub mod Reach
use rem0te.Rbac.Technician.{BusinessScope}
use rem0te.Rbac.Platform.{sanitize_platform_permissions, PlatformPermission}
use rem0te.Rbac.Capability.{effective_capabilities, RoleType}
use rem0te.Rbac.Actor.{pick_technician, Membership, Actor, TechnicianContext, to_items, is_disabled}
use rem0te.Prelude.{
  is_empty, [], ◌∷◌, false, String, Result, Option, Bool, ◌&&◌, if◌then◌else◌, err, ℕ, true,
  throw_if, some, none, List, ok, not, is_nil, map,
}
use rem0te.Prelude.Json.{Json, Items}
use rem0te.Auth.Revocation.{is_revoked}
use rem0te.Prelude.{◌>>=◌, ◌>>◌}

-- `JwtPayload`, as a token carries it and as a request gets it; in a token the last four fields
-- are untrusted. `capabilities` is any value.
pub record JwtPayload : Type 0 where
  pub sub : String
  pub email : String
  pub tenant_id : Option String
  pub business_id : Option String
  pub role_type : Option RoleType
  pub is_platform_admin : Bool
  pub mfa_verified : Bool
  pub capabilities : Json
  pub customer_id : Option String
  pub partial : Bool
  pub iat : Option ℕ
  pub exp : Option ℕ
  pub own_business_id : Option String
  pub technician : Option TechnicianContext
  pub assigned_business_ids : List String
  pub platform_permissions : List PlatformPermission

pub data UserStatus : Type 0 where
  active invited suspended deleted : UserStatus

pub record Account : Type 0 where
  pub status : UserStatus
  pub is_platform_admin : Bool
  pub sessions_valid_after : Option ℕ
  pub platform_permissions : Json

-- The rows that one request reads: of a user, some active membership of a user, whether a tenant
-- is active, the membership in a tenant with `isActive`, and the technician scopes of a user.
pub record Rows : Type 0 where
  pub user : String → Option Account
  pub active_membership : String → Option Membership
  pub tenant : String → Option Bool
  pub membership : String → String → Option (Bool × Membership)
  pub scopes : String → List BusinessScope

pub data Refusal : Type 0 where
  mfa_incomplete account_not_found session_ended account_suspended : Refusal
  business_disabled container_gone account_disabled access_ended : Refusal

abbrev pub is_deleted : UserStatus → Bool
is_deleted UserStatus.deleted = true
is_deleted _ = false

abbrev pub is_suspended : UserStatus → Bool
is_suspended UserStatus.suspended = true
is_suspended _ = false

-- a text that is there and not empty
abbrev pub truthy : Option String → Option String
truthy none = none
truthy (some s) = if is_empty s then none else some s

abbrev pub or_else : Option String → Option String → Option String
or_else none b = b
or_else (some a) b = some a

abbrev or_empty : Json → Json
or_empty Json.undefined = Json.array Items.nil
or_empty Json.null = Json.array Items.nil
or_empty v = v

abbrev or_null : Json → Json
or_null Json.undefined = Json.null
or_null v = v

-- The variables that `validate` sets on its way.
pub record Standing : Type 0 where
  pub role_type : Option RoleType
  pub business_id : Option String
  pub capabilities : Json
  pub no_membership : Bool

abbrev pub claimed : JwtPayload → Standing
claimed p = record {
  role_type = p.role_type;
  business_id = or_else p.business_id p.customer_id;
  capabilities = or_null p.capabilities;
  no_membership = false;
}

abbrev pub nobody : Bool → Standing
nobody b = record {
  role_type = none;
  business_id = none;
  capabilities = Json.array Items.nil;
  no_membership = b;
}

abbrev customer_id_of : Membership → Option String
customer_id_of m = elim m.customer [ none ↦ none | some b ↦ some b.id ]

abbrev pub member : Membership → Standing
member m = record {
  role_type = some m.role;
  business_id = customer_id_of m;
  capabilities = or_empty m.capabilities;
  no_membership = false;
}

abbrev pub as_member : Bool → Membership → Result Refusal Standing
as_member admin m =
    if not admin && is_disabled (some m) then err business_disabled else ok (member m)

-- without a tenant
unfoldable pub untenanted : Standing → Bool → Option Membership → Result Refusal Standing
untenanted claims admin (some m) = as_member admin m
untenanted claims admin none = ok (if admin then claims else nobody false)

-- with a tenant: its `isActive`, and the membership in it
unfoldable pub tenanted : Bool → Option Bool → Option (Bool × Membership) → Result Refusal Standing
tenanted admin none row = err container_gone
tenanted admin (some false) row = err account_disabled
tenanted admin (some true) none = ok (nobody true)
tenanted admin (some true) (some (false, m)) = ok (nobody true)
tenanted admin (some true) (some (true, m)) = as_member admin m

pub record Extras : Type 0 where
  pub technician : Option TechnicianContext
  pub assigned_business_ids : List String
  pub platform_permissions : List PlatformPermission

-- `resolveExtras` of actor-resolver.service.ts
unfoldable pub resolve_extras : List BusinessScope → Json → Option String → Option String → Extras
unfolding pick_technician sanitize_platform_permissions
resolve_extras scopes permissions own requested = record {
  technician = pick_technician scopes own requested;
  assigned_business_ids = map (λ s. s.business_id) scopes;
  platform_permissions = sanitize_platform_permissions permissions;
}

-- The header that names a business is absent, one text or several.
pub data Header : Type 0 where
  absent : Header
  one : String → Header
  many : List String → Header

abbrev pub requested_business : Header → Option String → Option String
requested_business absent cookie = cookie
requested_business (one s) cookie = some s
requested_business (many []) cookie = cookie
requested_business (many (s ∷ _)) cookie = some s

abbrev session_role : Standing → Option TechnicianContext → Option RoleType
session_role s none = s.role_type
session_role s (some t) = none

abbrev session_business : Standing → Option TechnicianContext → Option String
session_business s none = s.business_id
session_business s (some t) = some t.business_id

abbrev session_capabilities : Standing → Option TechnicianContext → Json
session_capabilities s none = s.capabilities
session_capabilities s (some t) = Json.array (to_items t.capabilities)

unfoldable pub session : JwtPayload → Bool → Standing → Extras → JwtPayload
session p admin s x = record p {
  is_platform_admin = admin;
  role_type = session_role s x.technician;
  business_id = session_business s x.technician;
  customer_id = session_business s x.technician;
  capabilities = session_capabilities s x.technician;
  own_business_id = s.business_id;
  technician = x.technician;
  assigned_business_ids = x.assigned_business_ids;
  platform_permissions = x.platform_permissions;
}

abbrev pub is_stranger : Bool → Standing → Extras → Bool
is_stranger admin s x =
    s.no_membership && not admin && is_nil x.assigned_business_ids && is_nil x.platform_permissions

unfoldable pub admit : JwtPayload → Bool → Standing → Extras → Result Refusal JwtPayload
unfolding session
admit p admin s x = do throw_if (is_stranger admin s x) access_ended; ok (session p admin s x)

-- of a subject, with the tenant and the standing that the token claims
unfoldable pub standing : Rows → String → Option String → Standing → Bool → Result Refusal Standing
unfolding untenanted tenanted
standing rows sub none claims admin = untenanted claims admin (rows.active_membership sub)
standing rows sub (some t) claims admin = tenanted admin (rows.tenant t) (rows.membership sub t)

unfoldable pub account : Option Account → Result Refusal Account
account none = err account_not_found
account (some a) = ok a

unfoldable pub validate : Rows → Header → Option String → JwtPayload → Result Refusal JwtPayload
unfolding account standing admit resolve_extras is_revoked
validate rows header cookie p = do
  throw_if p.partial mfa_incomplete
  a ← account (rows.user p.sub)
  throw_if (is_deleted a.status) account_not_found
  throw_if (is_revoked p.iat a.sessions_valid_after) session_ended
  throw_if (is_suspended a.status) account_suspended
  s ← standing rows p.sub (truthy p.tenant_id) (claimed p) a.is_platform_admin
  admit p a.is_platform_admin s (
      resolve_extras (rows.scopes p.sub) a.platform_permissions s.business_id
        (requested_business header cookie))

-- `buildActorContext` of access-control.service.ts
unfoldable pub request_actor : JwtPayload → Actor
unfolding effective_capabilities
request_actor p = record {
  user_id = p.sub;
  business_id = or_else p.business_id p.customer_id;
  is_platform_admin = p.is_platform_admin;
  role_type = p.role_type;
  capabilities = effective_capabilities p.is_platform_admin p.role_type p.capabilities;
  technician = p.technician;
}
