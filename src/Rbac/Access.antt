-- ===== src/Rbac/Access.antt =====
-- Business isolation: apps/api/src/rbac/access-control.service.ts. A row that the service fetches
-- is given, and an exception is a result.
pub mod Isolation
use rem0te.Rbac.Actor.{TechnicianContext, is_blank, Actor}
use rem0te.Schedule.{Intl}
use rem0te.Rbac.Technician.{String-discrete, ComputerAccess, computer_access_active}
use rem0te.Prelude.{
  ℕ, ◌≡◌, Bool, true, false, not, ◌&&◌, ◌||◌, Option, none, some, List, [], ◌∷◌, ◌++◌, String,
  str_eq, if◌then◌else◌, is_some, get_or, trim, includes, all,
}
use rem0te.Rbac.Capability.{Capability, RoleType, Capability-discrete, is_owner_role}

pub data Access {ℓ} (A : Type ℓ) : Type ℓ where
  allowed : A → Access A
  forbidden : Access A
  not_found : Access A

pub data AccessMode : Type 0 where
  assigned_users company_wide : AccessMode

pub record Endpoint : Type 0 where
  pub id : String
  pub customer_id : Option String
  pub access_mode : AccessMode

-- `requestedBusinessId?.trim() || null`
unfoldable pub requested_id : Option String → Option String
requested_id none = none
requested_id (some s) = if is_blank (trim s) then none else some (trim s)

abbrev pub own_scope : Option String → Option String → Access (Option String)
own_scope none requested = forbidden
own_scope (some b) none = allowed (some b)
own_scope (some b) (some r) = if str_eq r b then allowed (some b) else forbidden

unfoldable pub resolve_scope : Actor → Option String → Access (Option String)
unfolding requested_id
resolve_scope actor requested =
    if actor.is_platform_admin
    then allowed (requested_id requested)
    else own_scope actor.business_id (requested_id requested)

abbrev concrete : Access (Option String) → Access String
concrete (allowed (some b)) = allowed b
concrete (allowed none) = forbidden
concrete forbidden = forbidden
concrete not_found = not_found

unfoldable pub require_scope : Actor → Option String → Access String
unfolding resolve_scope
require_scope actor requested = concrete (resolve_scope actor requested)

unfoldable pub is_business_owner : Actor → Bool
is_business_owner actor = actor.is_platform_admin || is_owner_role actor.role_type

abbrev pub same_business : Option String → Option String → Bool
same_business (some a) (some b) = str_eq a b
same_business none none = true
same_business _ _ = false

abbrev pub is_company_wide : AccessMode → Bool
is_company_wide company_wide = true
is_company_wide _ = false

-- `endpointIds === null || endpointIds.includes(id)`
abbrev pub lists : Option (List String) → String → Bool
lists none e = true
lists (some xs) e = includes String-discrete e xs

-- `access` is the row of ComputerAccess for this computer and user, if there is one.
unfoldable pub can_reach_endpoint : Intl → Actor → Endpoint → Option ComputerAccess → ℕ → Bool
unfolding is_business_owner
can_reach_endpoint intl actor endpoint access at =
    if is_business_owner actor then true else elim actor.technician [
      | none ↦
          is_company_wide endpoint.access_mode
            && same_business endpoint.customer_id actor.business_id
          || computer_access_active intl access at
      | some t ↦
          same_business endpoint.customer_id (some t.business_id)
          && lists t.endpoint_ids endpoint.id
    ]

unfoldable pub can : Actor → Capability → Bool
unfolding includes Capability-discrete
can actor c = actor.is_platform_admin || includes Capability-discrete c actor.capabilities

unfoldable pub assert_capability : Actor → List Capability → Access (Unit {0})
unfolding can all
assert_capability actor cs =
    if actor.is_platform_admin || all (λ c. includes Capability-discrete c actor.capabilities) cs
    then allowed tt
    else forbidden

abbrev pub restriction : Option TechnicianContext → String → Bool
restriction none e = true
restriction (some t) e = lists t.endpoint_ids e

abbrev pub in_business : Option String → Option String → Bool
in_business none customer = false
in_business (some b) customer = same_business customer (some b)

unfoldable pub assert_endpoint_in_scope : Actor → Option Endpoint → Access Endpoint
assert_endpoint_in_scope actor none = not_found
assert_endpoint_in_scope actor (some e) =
    if actor.is_platform_admin
    then allowed e
    else if in_business actor.business_id e.customer_id && restriction actor.technician e.id
    then allowed e
    else not_found

pub record Target : Type 0 where
  pub role_type : Option RoleType
  pub is_platform_admin : Bool
  pub user_id : String

unfoldable pub assert_may_manage : Actor → Target → Access (Unit {0})
unfolding is_business_owner
assert_may_manage actor target =
    if actor.is_platform_admin
    then allowed tt
    else if target.is_platform_admin
    then forbidden
    else if not (is_business_owner actor)
    then forbidden
    else if is_owner_role target.role_type && not (str_eq target.user_id actor.user_id)
    then forbidden
    else allowed tt
