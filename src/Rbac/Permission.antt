-- ===== src/Rbac/Permission.antt =====
-- The bridge from `resource:action` permissions: apps/api/src/rbac/permissions.map.ts.
pub mod Levels
use Prim.Native.String.{◌++◌ as append_text}
use Prim.Native.Char.{code}
use rem0te.Prelude.{
  ℕ, ◌≡◌, ◌≢◌, refl, ◌⊎◌, inl, inr, Bool, true, false, not, ◌&&◌, ◌||◌, Option, none, some, List,
  [], ◌∷◌, ◌++◌, String, str_eq, eq_iff, arith, if◌then◌else◌, any, same, includes, ◌==◌, is_some,
  Option-cases, Bool-cases,
}
use rem0te.Prelude.Json.{Json}
use rem0te.Rbac.Capability.{
  computers_view, computers_connect, computers_add, computers_remove, computers_edit, sessions_view,
  users_view, users_manage, audit_view, Capability, RoleType, effective_capabilities,
  Capability-discrete, is_owner_role,
}

pub data PermissionRule : Type 0 where
  platform_only owner_only member : PermissionRule
  needs : Capability → PermissionRule

abbrev pub permission_rules : List (String × PermissionRule)
permission_rules =
    ("platform:admin", platform_only)
    ∷ ("platform:read", platform_only)
    ∷ ("tenant:read", member)
    ∷ ("tenant:write", owner_only)
    ∷ ("settings:write", owner_only)
    ∷ ("branding:write", owner_only)
    ∷ ("customers:read", needs computers_view)
    ∷ ("customers:write", owner_only)
    ∷ ("dashboard:read", member)
    ∷ ("portal:read", member)
    ∷ ("endpoints:read", needs computers_view)
    ∷ ("endpoints:write", needs computers_edit)
    ∷ ("endpoints:update", needs computers_edit)
    ∷ ("endpoints:create", needs computers_add)
    ∷ ("endpoints:delete", needs computers_remove)
    ∷ ("sessions:read", needs sessions_view)
    ∷ ("sessions:write", needs computers_connect)
    ∷ ("sessions:create", needs computers_connect)
    ∷ ("sessions:update", needs computers_connect)
    ∷ ("sessions:launch", needs computers_connect)
    ∷ ("notes:read", needs computers_view)
    ∷ ("notes:write", needs computers_edit)
    ∷ ("users:read", needs users_view)
    ∷ ("users:write", needs users_manage)
    ∷ ("roles:read", needs users_view)
    ∷ ("roles:write", needs users_manage)
    ∷ ("audit:read", needs audit_view)
    ∷ ("api_keys:read", owner_only)
    ∷ ("api_keys:write", owner_only)
    ∷ []

-- `PERMISSION_RULES[p]`, for a key of its own
unfoldable pub lookup_rule : String → List (String × PermissionRule) → Option PermissionRule
lookup_rule p [] = none
lookup_rule p ((k, r) ∷ rs) = if str_eq k p then some r else lookup_rule p rs

-- `split(':')`: the first part, and what the destructuring takes for the second
before_colon : String → String
before_colon String.[] = String.[]
before_colon (String.◌∷◌ c s) =
    let rest = before_colon s in if code c == b':' then String.[] else String.◌∷◌ c rest

second_part : String → String
unfolding before_colon
second_part String.[] = String.[]
second_part (String.◌∷◌ c s) = if code c == b':' then before_colon s else second_part s

abbrev is_empty : String → Bool
is_empty String.[] = true
is_empty _ = false

-- `['create', 'update', 'delete', 'launch'].includes(action)`
abbrev writes : String → Bool
writes a = str_eq a "create" || str_eq a "update" || str_eq a "delete" || str_eq a "launch"

unfoldable pub resolve_wildcard : String → Option PermissionRule
unfolding second_part before_colon lookup_rule
resolve_wildcard p =
    let resource = before_colon p in
    let action = second_part p in
    if is_empty resource || is_empty action
    then none
    else if writes action
    then lookup_rule (append_text resource ":write") permission_rules
    else none

unfoldable pub rule_for : String → Option PermissionRule
unfolding resolve_wildcard lookup_rule
rule_for p = elim (lookup_rule p permission_rules) [ none ↦ resolve_wildcard p | some r ↦ some r ]

unfoldable pub passes : PermissionRule → Option RoleType → Json → Bool
unfolding effective_capabilities includes Capability-discrete
passes platform_only role stored = false
passes owner_only role stored = is_owner_role role
passes member role stored = is_owner_role role || is_some role
passes (needs c) role stored =
    is_owner_role role || includes Capability-discrete c (effective_capabilities false role stored)

-- An unknown permission fails closed.
unfoldable pub passes_rule : Option PermissionRule → Option RoleType → Json → Bool
unfolding passes
passes_rule none role stored = false
passes_rule (some r) role stored = passes r role stored

unfoldable pub actor_has_permission : Bool → Option RoleType → Json → String → Bool
actor_has_permission admin role stored p = admin || passes_rule (rule_for p) role stored
