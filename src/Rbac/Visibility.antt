-- ===== src/Rbac/Visibility.antt =====
-- Which computers a list shows: `endpointVisibilityWhere` of
-- apps/api/src/rbac/access-control.service.ts, as the test that its `where` stands for on one row.
use rem0te.Schedule.{Intl, is_within_dates}
use rem0te.Rbac.Technician.{ComputerAccess, computer_access_active}
use rem0te.Rbac.Actor.{Actor}
use rem0te.Rbac.Access.{
  Access, Endpoint, allowed, forbidden, not_found, resolve_scope, requested_id, is_business_owner,
  same_business, in_business, can_reach_endpoint, assert_endpoint_in_scope, is_company_wide, lists,
}
use rem0te.Prelude.{
  ℕ, ◌≡◌, Bool, true, false, ◌&&◌, ◌||◌, Option, none, some, String, arith, ltb, leb, if◌then◌else◌,
}

-- `scope ? { customerId: scope } : {}`
abbrev in_scope : Option String → Option String → Bool
in_scope none customer = true
in_scope (some b) customer = same_business customer (some b)

abbrev has_begun : Option ℕ → ℕ → Bool
has_begun none at = true
has_begun (some s) at = leb s at

abbrev has_not_ended : Option ℕ → ℕ → Bool
has_not_ended none at = true
has_not_ended (some e) at = ltb at e

-- a grant of this user for this computer inside its dates
abbrev is_dated : Option ComputerAccess → ℕ → Bool
is_dated none at = false
is_dated (some row) at = has_begun row.starts_at at && has_not_ended row.expires_at at

unfoldable pub is_visible : Actor → Option String → Endpoint → Option ComputerAccess → ℕ → Bool
unfolding is_business_owner
is_visible actor scope e access at =
    if is_business_owner actor then in_scope scope e.customer_id else elim actor.technician [
      | some t ↦ same_business e.customer_id (some t.business_id) && lists t.endpoint_ids e.id
      | none ↦
          in_scope scope e.customer_id
          && (is_dated access at
              || is_company_wide e.access_mode && in_business actor.business_id e.customer_id)
    ]

abbrev visible_in :
    Access (Option String) → Actor → Endpoint → Option ComputerAccess → ℕ → Access Bool
visible_in (allowed scope) actor e access at = allowed (is_visible actor scope e access at)
visible_in forbidden actor e access at = forbidden
visible_in not_found actor e access at = not_found

unfoldable pub endpoint_visibility :
    Actor → Option String → Endpoint → Option ComputerAccess → ℕ → Access Bool
unfolding resolve_scope is_visible
endpoint_visibility actor requested e access at =
    visible_in (resolve_scope actor requested) actor e access at

dated_of_active :
    (intl : Intl) (access : Option ComputerAccess) (at : ℕ)
    → computer_access_active intl access at ≡ true
    → is_dated access at ≡ true
unfolding computer_access_active is_within_dates
dated_of_active intl none at h = cc
dated_of_active intl (some row) at h = ground arith

visible_user :
    (intl : Intl) (actor : Actor) (e : Endpoint) (access : Option ComputerAccess) (at : ℕ)
    → actor.is_platform_admin ≡ false
    → in_business actor.business_id e.customer_id ≡ true
    → can_reach_endpoint intl actor e access at ≡ true
    → is_visible actor actor.business_id e access at ≡ true
unfolding is_visible can_reach_endpoint
visible_user intl actor e access at a h k = ground (arith, dated_of_active intl access at)

-- Whatever computer passes the scope check and the access check is among those that a list without
-- a named business shows to the same actor at that moment.
pub endpoint_visibility-reach :
    (intl : Intl) (actor : Actor) (e : Endpoint) (access : Option ComputerAccess) (at : ℕ)
    → assert_endpoint_in_scope actor (some e) ≡ allowed e
    → can_reach_endpoint intl actor e access at ≡ true
    → endpoint_visibility actor none e access at ≡ allowed true
unfolding endpoint_visibility assert_endpoint_in_scope is_visible requested_id
endpoint_visibility-reach intl actor e access at h k =
    ground (arith, visible_user intl actor e access at)
