-- ===== src/Rbac/Permission/Levels.antt =====
-- The three levels of access, compared over every permission string.
use rem0te.Rbac.Capability.Sanitize.{includes-sanitize_capabilities, mentions}
use rem0te.Rbac.Permission.{
  passes, PermissionRule, actor_has_permission, needs, rule_for, passes_rule,
}
use rem0te.Rbac.Capability.{effective_capabilities, RoleType, is_owner_role, sanitize_capabilities}
use rem0te.Rbac.Permission.{platform_only, owner_only, member, needs}
use rem0te.Prelude.{◌≡◌, refl, Bool, true, false, Option, none, some, String, arith}
use rem0te.Prelude.Json.{Json}

-- A rule as a Business User meets it: members pass, a capability has to be listed, the rest is shut.
abbrev pub grants : PermissionRule → Json → Bool
grants platform_only stored = false
grants owner_only stored = false
grants member stored = true
grants (needs c) stored = mentions c stored

abbrev pub granted : Option PermissionRule → Json → Bool
granted none stored = false
granted (some r) stored = grants r stored

effective_user :
    (stored : Json)
    → effective_capabilities false (some RoleType.business_user) stored
      ≡ sanitize_capabilities stored
unfolding effective_capabilities
effective_user stored = ground arith

passes_user :
    (r : PermissionRule) (stored : Json)
    → passes r (some RoleType.business_user) stored ≡ grants r stored
unfolding passes
passes_user platform_only stored = refl
passes_user owner_only stored = refl
passes_user member stored = refl
passes_user (needs c) stored = rw (effective_user stored) (includes-sanitize_capabilities c stored)

passes_rule_user :
    (o : Option PermissionRule) (stored : Json)
    → passes_rule o (some RoleType.business_user) stored ≡ granted o stored
unfolding passes_rule
passes_rule_user none stored = refl
passes_rule_user (some r) stored = passes_user r stored

-- A Business User has exactly the permissions whose rule is "member", or a capability that the
-- membership lists: an unknown permission, a platform one and an owner's are all refused.
pub business_user_permission :
    (stored : Json) (p : String)
    → actor_has_permission false (some RoleType.business_user) stored p
      ≡ granted (rule_for p) stored
unfolding actor_has_permission
business_user_permission stored p = passes_rule_user (rule_for p) stored

passes_owner :
    (r : PermissionRule) (role owner : Option RoleType) (stored stored' : Json)
    → is_owner_role owner ≡ true
    → passes r role stored ≡ true
    → passes r owner stored' ≡ true
unfolding passes
passes_owner platform_only role owner stored stored' o h = cc
passes_owner _ role owner stored stored' o h = ground arith

passes_rule_owner :
    (r : Option PermissionRule) (role owner : Option RoleType) (stored stored' : Json)
    → is_owner_role owner ≡ true
    → passes_rule r role stored ≡ true
    → passes_rule r owner stored' ≡ true
unfolding passes_rule
passes_rule_owner none role owner stored stored' o h = h
passes_rule_owner (some r) role owner stored stored' o h =
    passes_owner r role owner stored stored' o h

-- A Business Owner has every permission that anyone but a Platform Admin has, whatever is stored.
pub owner_dominates :
    (role owner : Option RoleType) (stored stored' : Json) (p : String)
    → is_owner_role owner ≡ true
    → actor_has_permission false role stored p ≡ true
    → actor_has_permission false owner stored' p ≡ true
unfolding actor_has_permission
owner_dominates role owner stored stored' p o h =
    passes_rule_owner (rule_for p) role owner stored stored' o h
