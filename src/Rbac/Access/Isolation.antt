-- ===== src/Rbac/Access/Isolation.antt =====
-- What nobody but a Platform Admin gets past, and what a technician's access rests on.
use rem0te.Rbac.Technician.Scopes.{opens, covers, scope_for-union}
use rem0te.Schedule.{Intl}
use rem0te.Rbac.Actor.{
  pick_technician, TechnicianContext, context_of, Actor, only_scope, UserRow, Membership, Identity,
  actor_for_business, build_actor_context, is_blank, own_business, is_own,
}
use rem0te.Rbac.Technician.{
  get_scope, BusinessScope, Assignment, ComputerAccess, resolve, scope_for,
}
use rem0te.Prelude.{
  ℕ, ◌≡◌, ◌≢◌, ◌⊎◌, ◌↔◌, inl, inr, ap, sym, ◌∙◌, arith, Bool, true, false, not, ◌&&◌, Option, none,
  some, List, [], ◌∷◌, String, str_eq, eq_iff, if◌then◌else◌, is_some, any, trim, Bool-cases,
  Option-cases, get_or,
}
use rem0te.Rbac.Capability.{Capability}
use rem0te.Rbac.Access.{
  allowed, resolve_scope, assert_endpoint_in_scope, requested_id, Endpoint, restriction, own_scope,
  in_business, can_reach_endpoint, lists,
}

own_scope_iff :
    (own requested scope : Option String)
    → (own_scope own requested ≡ allowed scope)
      ↔ (((scope ≡ own) × (own ≢ none)) × ((requested ≡ none) ⊎ (requested ≡ own)))
own_scope_iff none requested scope = ground arith
own_scope_iff (some b) none scope = ground arith
own_scope_iff (some b) (some r) scope = ground (arith, eq_iff r b)

pub in_business_lem :
    (own customer : Option String)
    → in_business own customer ≡ true
    → (own ≢ none) × (customer ≡ own)
in_business_lem none customer h = cc
in_business_lem (some b) none h = cc
in_business_lem (some b) (some c) h = ground (arith, eq_iff c b)

-- Without Platform Admin a request is pinned to the actor's own business: any other answer than
-- that business is a refusal, and another business that is named is always refused.
pub resolve_scope-pinned :
    (actor : Actor) (requested : Option String) (scope : Option String)
    → actor.is_platform_admin ≡ false
    → (resolve_scope actor requested ≡ allowed scope) ↔ (
        ((scope ≡ actor.business_id) × (actor.business_id ≢ none))
        × ((requested_id requested ≡ none) ⊎ (requested_id requested ≡ actor.business_id)))
unfolding resolve_scope
resolve_scope-pinned actor requested scope h =
    rw h (own_scope_iff actor.business_id (requested_id requested) scope)

-- The computer that a check lets through is the one asked for; without Platform Admin it is in
-- the actor's business, and among the listed computers of a technician.
pub endpoint_in_scope :
    (actor : Actor) (o : Option Endpoint) (e : Endpoint)
    → actor.is_platform_admin ≡ false
    → assert_endpoint_in_scope actor o ≡ allowed e
    → (o ≡ some e)
      × (actor.business_id ≢ none)
      × (e.customer_id ≡ actor.business_id)
      × (restriction actor.technician e.id ≡ true)
unfolding assert_endpoint_in_scope
endpoint_in_scope actor none e n h = cc
endpoint_in_scope actor (some x) e n h =
    ground (arith, in_business_lem actor.business_id x.customer_id)

business-get_scope :
    (id : String) (ss : List BusinessScope) (s : BusinessScope)
    → get_scope id ss ≡ some s
    → s.business_id ≡ id
unfolding get_scope
business-get_scope id [] s h = cc
business-get_scope id (x ∷ ss) s h = elim (Bool-cases (str_eq x.business_id id)) [
  | inl e ↦ ground (arith, eq_iff x.business_id id)
  | inr e ↦ business-get_scope id ss s (ground arith)
]

unfoldable pub IsFrom : List BusinessScope → Option TechnicianContext → Type 0
IsFrom ss none = Unit
IsFrom ss (some t) = context_of (get_scope t.business_id ss) ≡ some t

IsFrom-only_scope : (ss : List BusinessScope) → IsFrom ss (only_scope ss)
unfolding IsFrom get_scope
IsFrom-only_scope [] = tt
IsFrom-only_scope (s ∷ []) = ground (arith, eq_iff s.business_id s.business_id)
IsFrom-only_scope (s ∷ s' ∷ ss) = tt

IsFrom-get_scope :
    (ss : List BusinessScope) (id : String) → IsFrom ss (context_of (get_scope id ss))
unfolding IsFrom
IsFrom-get_scope ss id = elim (Option-cases (get_scope id ss)) [
  | inl h ↦ rw h tt
  | inr (s, h) ↦ rw h (ap context_of (ap (λ x. get_scope x ss) (business-get_scope id ss s h) ∙ h))
]

IsFrom-if :
    (ss : List BusinessScope) (b : Bool) (x y : Option TechnicianContext)
    → IsFrom ss x
    → IsFrom ss y
    → IsFrom ss (if b then x else y)
IsFrom-if ss true x y h k = h
IsFrom-if ss false x y h k = k

pub IsFrom-pick_technician :
    (ss : List BusinessScope) (own requested : Option String)
    → IsFrom ss (pick_technician ss own requested)
unfolding pick_technician IsFrom
IsFrom-pick_technician ss own requested =
    let want = trim (get_or requested "") in
    IsFrom-if ss (not (is_blank want) && not (is_own own want) && is_some (get_scope want ss))
      (context_of (get_scope want ss))
      (if is_blank want && not (is_some own) then only_scope ss else none)
      (IsFrom-get_scope ss want)
      (IsFrom-if ss (is_blank want && not (is_some own)) (only_scope ss) none (IsFrom-only_scope ss)
        tt)

identity_lem :
    (user : Option UserRow) (m : Option Membership) (ss : List BusinessScope)
    (requested : Option String) (i : Identity) (t : TechnicianContext)
    → actor_for_business user m ss requested ≡ some i
    → i.technician ≡ some t
    → (pick_technician ss (own_business m) requested ≡ some t) × (i.role_type ≡ none)
unfolding actor_for_business
identity_lem none m ss requested i t h k = cc
identity_lem (some user) m ss requested i t h k = ground arith

covers-context :
    (o : Option BusinessScope) (t : TechnicianContext) (e : String)
    → context_of o ≡ some t
    → covers e o ≡ lists t.endpoint_ids e
covers-context none t e h = cc
covers-context (some s) t e h = ground arith

reach_lem :
    (intl : Intl) (i : Identity) (t : TechnicianContext) (e : Endpoint)
    (access : Option ComputerAccess) (at : ℕ)
    → i.technician ≡ some t
    → i.role_type ≡ none
    → i.user.is_platform_admin ≡ false
    → can_reach_endpoint intl (build_actor_context i) e access at ≡ true
    → (e.customer_id ≡ some t.business_id) × (lists t.endpoint_ids e.id ≡ true)
unfolding can_reach_endpoint build_actor_context
reach_lem intl i t e access at ht hr ha h =
    ground (arith, in_business_lem (some t.business_id) e.customer_id)

covers_of_pick :
    (ss : List BusinessScope) (own requested : Option String) (t : TechnicianContext) (e : String)
    → pick_technician ss own requested ≡ some t
    → covers e (get_scope t.business_id ss) ≡ lists t.endpoint_ids e
unfolding IsFrom
covers_of_pick ss own requested t e h =
    covers-context (get_scope t.business_id ss) t e
      (rw h at (IsFrom-pick_technician ss own requested))

-- When a user who is no Platform Admin acts as a technician in a business, every computer that the access check lets them
-- reach is in that business, and some grant that counts at the moment of the resolution is for the
-- business and opens the computer, whatever business the client asked for.
pub technician_reach :
    (intl : Intl) (at later : ℕ) (grants : List Assignment) (user : Option UserRow)
    (m : Option Membership) (requested : Option String) (i : Identity) (t : TechnicianContext)
    (e : Endpoint) (access : Option ComputerAccess)
    → actor_for_business user m (resolve intl at grants).scopes requested ≡ some i
    → i.technician ≡ some t
    → i.user.is_platform_admin ≡ false
    → can_reach_endpoint intl (build_actor_context i) e access later ≡ true
    → (e.customer_id ≡ some t.business_id) × (any (opens intl at t.business_id e.id) grants ≡ true)
unfolding scope_for
technician_reach intl at later grants user m requested i t e access hi ht na h =
    let ss = (resolve intl at grants).scopes in
    let (picked, role) = identity_lem user m ss requested i t hi ht in
    let (business, listed) = reach_lem intl i t e access later ht role na h in
    let union = (scope_for-union intl at t.business_id e.id Capability.audit_view grants).1 in
    (business, sym union ∙ covers_of_pick ss (own_business m) requested t e.id picked ∙ listed)
