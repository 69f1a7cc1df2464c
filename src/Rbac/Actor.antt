-- ===== src/Rbac/Actor.antt =====
-- Who is making a request: apps/api/src/rbac/actor-resolver.service.ts and `buildActorContext` of
-- access-control.service.ts. The rows of the user and of the membership are given.
use rem0te.Rbac.Technician.{Business, get_scope, BusinessScope, GrantSource}
use rem0te.Prelude.{
  Bool, true, false, not, ◌&&◌, ◌||◌, Option, none, some, List, [], ◌∷◌, String, str_eq,
  if◌then◌else◌, is_some, get_or, trim,
}
use rem0te.Prelude.Json.{Json, Items}
use rem0te.Rbac.Capability.{Capability, RoleType, effective_capabilities, key}

pub record TechnicianContext : Type 0 where
  pub business_id : String
  pub capabilities : List Capability
  pub endpoint_ids : Option (List String)
  pub sources : List GrantSource

abbrev pub to_context : BusinessScope → TechnicianContext
to_context s = record {
  business_id = s.business_id;
  capabilities = s.capabilities;
  endpoint_ids = s.endpoint_ids;
  sources = s.sources;
}

abbrev pub is_blank : String → Bool
is_blank String.[] = true
is_blank _ = false

abbrev pub is_own : Option String → String → Bool
is_own none id = false
is_own (some own) id = str_eq id own

abbrev pub context_of : Option BusinessScope → Option TechnicianContext
context_of none = none
context_of (some s) = some (to_context s)

-- with one scope and nothing to choose
abbrev pub only_scope : List BusinessScope → Option TechnicianContext
only_scope (s ∷ []) = some (to_context s)
only_scope _ = none

-- The technician context of `resolveExtras`: `own` is the user's business, `requested` what the
-- client asked for, untrusted.
unfoldable pub pick_technician :
    List BusinessScope → Option String → Option String → Option TechnicianContext
unfolding get_scope
pick_technician scopes own requested =
    let want = trim (get_or requested "") in
    if not (is_blank want) && not (is_own own want) && is_some (get_scope want scopes)
    then context_of (get_scope want scopes)
    else if is_blank want && not (is_some own)
    then only_scope scopes
    else none

pub record Membership : Type 0 where
  pub customer : Option Business
  pub capabilities : Json
  pub role : RoleType

pub record UserRow : Type 0 where
  pub id : String
  pub is_active : Bool  -- `status === 'ACTIVE'`
  pub is_platform_admin : Bool

-- What `actorForBusiness` returns.
pub record Identity : Type 0 where
  pub user : UserRow
  pub own_business_id : Option String
  pub role_type : Option RoleType
  pub capabilities : Json
  pub business_id : Option String
  pub technician : Option TechnicianContext

abbrev pub is_disabled : Option Membership → Bool
is_disabled none = false
is_disabled (some m) = elim m.customer [ none ↦ false | some b ↦ not b.is_active || b.is_archived ]

-- the customer's id of a membership that is not disabled
unfoldable pub own_business : Option Membership → Option String
own_business none = none
own_business (some m) = elim m.customer [
  | none ↦ none
  | some b ↦ if is_disabled (some m) then none else some b.id
]

-- a list of capabilities, as the array of their keys
unfoldable pub to_items : List Capability → Items
unfolding key
to_items [] = Items.nil
to_items (c ∷ cs) = Items.cons (Json.string (key c)) (to_items cs)

abbrev identity_role : Option TechnicianContext → Option Membership → Option RoleType
identity_role (some t) m = none
identity_role none none = none
identity_role none (some m) = if is_disabled (some m) then none else some m.role

abbrev identity_capabilities : Option TechnicianContext → Option Membership → Json
identity_capabilities (some t) m = Json.array (to_items t.capabilities)
identity_capabilities none none = Json.array Items.nil
identity_capabilities none (some m) =
    if is_disabled (some m) then Json.array Items.nil else m.capabilities

abbrev identity_business : Option TechnicianContext → Option String → Option String
identity_business (some t) own = some t.business_id
identity_business none own = own

unfoldable pub actor_for_business :
    Option UserRow → Option Membership → List BusinessScope → Option String → Option Identity
actor_for_business none m scopes business = none
actor_for_business (some user) m scopes business =
    let own = own_business m in
    let tech = pick_technician scopes own business in
    if user.is_active
    then some (record {
      user = user;
      own_business_id = own;
      role_type = identity_role tech m;
      capabilities = identity_capabilities tech m;
      business_id = identity_business tech own;
      technician = tech;
    })
    else none

-- `ActorContext`, as far as a decision reads it
pub record Actor : Type 0 where
  pub user_id : String
  pub business_id : Option String
  pub is_platform_admin : Bool
  pub role_type : Option RoleType
  pub capabilities : List Capability
  pub technician : Option TechnicianContext

-- `buildActorContext`, of the identity that the JWT strategy or a redemption resolved
unfoldable pub build_actor_context : Identity → Actor
unfolding effective_capabilities
build_actor_context i = record {
  user_id = i.user.id;
  business_id = i.business_id;
  is_platform_admin = i.user.is_platform_admin;
  role_type = i.role_type;
  capabilities = effective_capabilities i.user.is_platform_admin i.role_type i.capabilities;
  technician = i.technician;
}
