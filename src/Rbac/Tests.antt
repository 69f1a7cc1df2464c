-- ===== src/Rbac/Tests.antt =====
-- A technician with one grant, a Business User, and the two actors at concrete requests.
use rem0te.Schedule.{Intl, is_within_dates}
use rem0te.Schedule.Parse.{stored_schedule_allows}
use rem0te.Rbac.Capability.{Capability, RoleType, add_found, of_key}
use rem0te.Rbac.Technician.{
  Assignment, Approval, Business, BusinessScope, resolve, scope_for, inactive_reason, add_grant,
  String-discrete, to_source,
}
use rem0te.Rbac.Technician.Scopes.{holds, covers, gives, opens, scope_for-union}
use rem0te.Rbac.Actor.{
  Actor, Identity, UserRow, actor_for_business, build_actor_context, pick_technician, to_context,
  own_business, to_items,
}
use rem0te.Rbac.Access.{AccessMode, Endpoint, allowed, assert_endpoint_in_scope, can_reach_endpoint}
use rem0te.Rbac.Platform.{MemberRow}
use rem0te.Rbac.Visibility.{endpoint_visibility, endpoint_visibility-reach}
use rem0te.Rbac.Access.Isolation.{technician_reach}
use rem0te.Prelude.{◌≡◌, refl, true, false, none, some, [], ◌∷◌, any, includes, trim, same_iff}
use rem0te.Prelude.Json.{Json, Items}

abbrev clock : Intl
clock = record { is_zone = λ z. true; weekday = λ z t. "Mon"; hour = λ z t. 9; minute = λ z t. 0 }

abbrev listed : Json
listed = Json.array (
    Items.cons (Json.string "computers:connect")
      (Items.cons (Json.string "users:manage") (Items.cons Json.null Items.nil)))

abbrev grant : Assignment
grant = record {
  id = "g1";
  customer = record { id = "acme"; is_active = true; is_archived = false };
  user_id = some "tess";
  group_capabilities = none;
  capabilities = listed;
  endpoint_ids = "pc" ∷ [];
  starts_at = some 1000;
  expires_at = none;
  schedule = Json.null;
  approval = Approval.not_required;
}

abbrev user : UserRow
user = record { id = "tess"; is_active = true; is_platform_admin = false }

abbrev pc : Endpoint
pc = record { id = "pc"; customer_id = some "acme"; access_mode = AccessMode.assigned_users }

abbrev source_scope : BusinessScope
source_scope = record {
  business_id = "acme";
  capabilities = Capability.computers_connect ∷ [];
  endpoint_ids = some ("pc" ∷ []);
  sources = to_source grant ∷ [];
}

abbrev identity : Identity
identity = record {
  user = user;
  own_business_id = none;
  role_type = none;
  capabilities = Json.array (Items.cons (Json.string "computers:connect") Items.nil);
  business_id = some "acme";
  technician = some (to_context source_scope);
}

resolved :
    actor_for_business (some user) none (resolve clock 2000 (grant ∷ [])).scopes (some " acme ")
    ≡ some identity
unfolding actor_for_business own_business pick_technician trim resolve inactive_reason
    stored_schedule_allows is_within_dates add_grant to_items add_found of_key
resolved = refl

reachable : can_reach_endpoint clock (build_actor_context identity) pc none 3000 ≡ true
unfolding can_reach_endpoint build_actor_context includes
reachable = rw ((same_iff String-discrete "pc" "pc").1 refl)

technician_reach_example :
    (pc.customer_id ≡ some "acme") × (any (opens clock 2000 "acme" "pc") (grant ∷ []) ≡ true)
technician_reach_example =
    technician_reach clock 2000 3000 (grant ∷ []) (some user) none (some " acme ") identity
      (to_context source_scope) pc none resolved refl refl reachable

scope_for-union_example :
    (holds Capability.audit_view (scope_for clock 2000 "acme" (grant ∷ []))
      ≡ any (gives clock 2000 "acme" Capability.audit_view) (grant ∷ []))
    × (covers "pc" (scope_for clock 2000 "acme" (grant ∷ []))
        ≡ any (opens clock 2000 "acme" "pc") (grant ∷ []))
scope_for-union_example = scope_for-union clock 2000 "acme" "pc" Capability.audit_view (grant ∷ [])

abbrev owner : Actor
owner = record {
  user_id = "olga";
  business_id = some "acme";
  is_platform_admin = false;
  role_type = some RoleType.business_owner;
  capabilities = [];
  technician = none;
}

abbrev tess : Actor
tess = build_actor_context identity

in_scope_of_tess : assert_endpoint_in_scope tess (some pc) ≡ allowed pc
unfolding assert_endpoint_in_scope build_actor_context includes
in_scope_of_tess = rw ((same_iff String-discrete "pc" "pc").1 refl)

endpoint_visibility-reach_example : endpoint_visibility tess none pc none 3000 ≡ allowed true
endpoint_visibility-reach_example =
    endpoint_visibility-reach clock tess pc none 3000 in_scope_of_tess reachable

abbrev acme : Business
acme = record { id = "acme"; is_active = true; is_archived = false }

abbrev member_row : MemberRow
member_row = record { user_id = "otto"; customer_id = some "acme" }
