-- ===== src/Rbac/Platform.antt =====
-- apps/api/src/rbac/platform-permissions.ts, and the checks of
-- apps/api/src/rbac/access-control.service.ts that concern the platform, a business and a user.
use rem0te.Rbac.Technician.{Business}
use rem0te.Rbac.Actor.{Actor}
use rem0te.Rbac.Access.{
  Access, allowed, forbidden, not_found, resolve_scope, requested_id, own_scope, is_business_owner,
  same_business,
}
use rem0te.Prelude.{
  ◌≡◌, Bool, true, false, ◌&&◌, ◌||◌, Option, none, some, List, [], ◌∷◌, String, str_eq, eq_iff,
  arith, if◌then◌else◌, Bool-cases, inl, inr, get_or,
}
use rem0te.Prelude.Json.{Json, Items}

pub data PlatformPermission : Type 0 where
  technicians_manage : PlatformPermission

abbrev is_permission : Json → Bool
is_permission (Json.string s) = str_eq s "technicians:manage"
is_permission _ = false

-- the set of the listed permissions, of which there is one
permission_items : Items → List PlatformPermission
permission_items Items.nil = []
permission_items (Items.cons p ps) =
    let rest = permission_items ps in if is_permission p then technicians_manage ∷ [] else rest

unfoldable pub sanitize_platform_permissions : Json → List PlatformPermission
unfolding permission_items
sanitize_platform_permissions (Json.array ps) = permission_items ps
sanitize_platform_permissions _ = []

abbrev holds_permission : PlatformPermission → List PlatformPermission → Bool
holds_permission technicians_manage [] = false
holds_permission technicians_manage (_ ∷ _) = true

-- `held` is the actor's `platformPermissions`.
unfoldable pub has_platform_permission : Actor → List PlatformPermission → PlatformPermission → Bool
has_platform_permission actor held perm = actor.is_platform_admin || holds_permission perm held

unfoldable pub assert_platform_permission :
    Actor → List PlatformPermission → PlatformPermission → Access (Unit {0})
unfolding has_platform_permission
assert_platform_permission actor held perm =
    if has_platform_permission actor held perm then allowed tt else forbidden

unfoldable pub assert_business_owner : Actor → Access (Unit {0})
unfolding is_business_owner
assert_business_owner actor = if is_business_owner actor then allowed tt else forbidden

unfoldable pub assert_platform_admin : Actor → Access (Unit {0})
assert_platform_admin actor = if actor.is_platform_admin then allowed tt else forbidden

unfoldable pub find_business : String → List Business → Option Business
find_business id [] = none
find_business id (b ∷ bs) = if str_eq b.id id then some b else find_business id bs

abbrev or_not_found {ℓ} : {A : Type ℓ} → Option A → Access A
or_not_found none = not_found
or_not_found (some x) = allowed x

-- `{ id: businessId, ...(scope ? { id: scope } : {}) }`: a scope replaces the id asked for.
abbrev business_for : Access (Option String) → String → List Business → Access Business
business_for (allowed scope) id bs = or_not_found (find_business (get_or scope id) bs)
business_for forbidden id bs = forbidden
business_for not_found id bs = not_found

unfoldable pub assert_business_in_scope : Actor → String → List Business → Access Business
unfolding resolve_scope find_business
assert_business_in_scope actor id bs = business_for (resolve_scope actor (some id)) id bs

pub record MemberRow : Type 0 where
  pub user_id : String
  pub customer_id : Option String

abbrev member_matches : Actor → String → MemberRow → Bool
member_matches actor user m =
    str_eq m.user_id user
    && (actor.is_platform_admin
        || same_business m.customer_id (some (get_or actor.business_id "__none__")))

unfoldable pub find_member : Actor → String → List MemberRow → Option MemberRow
find_member actor user [] = none
find_member actor user (m ∷ ms) =
    if member_matches actor user m then some m else find_member actor user ms

unfoldable pub assert_user_in_scope : Actor → String → List MemberRow → Access MemberRow
unfolding find_member
assert_user_in_scope actor user ms = or_not_found (find_member actor user ms)

id-find_business :
    (id : String) (bs : List Business) (b : Business) → find_business id bs ≡ some b → b.id ≡ id
unfolding find_business
id-find_business id [] b h = cc
id-find_business id (x ∷ bs) b h = elim (Bool-cases (str_eq x.id id)) [
  | inl e ↦ ground (arith, eq_iff x.id id)
  | inr e ↦ id-find_business id bs b (ground arith)
]

own_business_found :
    (own requested : Option String) (id : String) (bs : List Business) (b : Business)
    → business_for (own_scope own requested) id bs ≡ allowed b
    → own ≡ some b.id
own_business_found none requested id bs b h = cc
own_business_found (some o) none id bs b h = ground (arith, id-find_business o bs b)
own_business_found (some o) (some r) id bs b h = ground (arith, id-find_business o bs b)

member_found :
    (actor : Actor) (user : String) (ms : List MemberRow) (m : MemberRow)
    → find_member actor user ms ≡ some m
    → member_matches actor user m ≡ true
unfolding find_member
member_found actor user [] m h = cc
member_found actor user (x ∷ ms) m h = elim (Bool-cases (member_matches actor user x)) [
  | inl e ↦ ground (arith, e)
  | inr e ↦ member_found actor user ms m (ground (arith, e))
]

same_own : (c : Option String) (own : String) → same_business c (some own) ≡ true → c ≡ some own
same_own none own h = cc
same_own (some c) own h = ground (arith, eq_iff c own)

-- Without Platform Admin and with a business of one's own, the business that a check returns is
-- that one, and the user that a check returns is the one asked for, with a membership in it.
pub business_and_user_in_scope :
    (actor : Actor) (own id user : String) (bs : List Business) (ms : List MemberRow) (b : Business)
    (m : MemberRow)
    → actor.is_platform_admin ≡ false
    → actor.business_id ≡ some own
    → assert_business_in_scope actor id bs ≡ allowed b
    → assert_user_in_scope actor user ms ≡ allowed m
    → (b.id ≡ own) × (m.user_id ≡ user) × (m.customer_id ≡ some own)
unfolding assert_business_in_scope assert_user_in_scope
business_and_user_in_scope actor own id user bs ms b m a o hb hu = ground (
  arith,
  own_business_found actor.business_id (requested_id (some id)) id bs b,
  member_found actor user ms m,
  eq_iff m.user_id user,
  same_own m.customer_id own,
)
