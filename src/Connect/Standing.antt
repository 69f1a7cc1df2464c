-- ===== src/Connect/Standing.antt =====
-- By what right a redemption connects to a computer.
use rem0te.Connect.Grant.{Grant, Ticket, check_grant}
use rem0te.Rbac.Technician.Scopes.{opens}
use rem0te.Connect.Decision.{IsAllowed, check_grant-IsEntitled, authorize_connect_iff}
use rem0te.Rbac.Access.Isolation.{technician_reach, in_business_lem}
use rem0te.Rbac.Technician.{BusinessScope, resolve}
use rem0te.Auth.Jwt.{truthy}
use rem0te.Rbac.Access.{in_business, can, can_reach_endpoint}
use rem0te.Rbac.Capability.{computers_connect}
use rem0te.Connect.{
  Rows, actor_of, Computer, is_archived_status, is_open_business, business_of, live_actor,
  authorize_connect,
}
use rem0te.Schedule.{Intl}
use rem0te.Prelude.{
  refl, Option-cases, inl, inr, sym, ◌∙◌, ok, Option, String, ℕ, List, ◌≡◌, ◌≢◌, true, some, none,
  false, arith, any, ◌≤◌,
}
use rem0te.Rbac.Actor.{
  own_business, actor_for_business, UserRow, Identity, Actor, Membership, build_actor_context,
}

-- Their own business is the computer's, or an assignment that counts now opens it in its business.
pub data Standing (intl : Intl) (rows : Rows) (now : ℕ) (user_id : String) (c : Computer)
    : Type 0 where
  member :
      c.endpoint.customer_id ≢ none
      → own_business (rows.membership user_id) ≡ c.endpoint.customer_id
      → Standing intl rows now user_id c
  technician :
      (b : String)
      → c.endpoint.customer_id ≡ some b
      → any (opens intl now b c.endpoint.id) (rows.assignments user_id) ≡ true
      → Standing intl rows now user_id c

some_inj {ℓ} : {A : Type ℓ} {a b : A} → some a ≡ some b → a ≡ b
some_inj h = cc

actor_of-eq-some :
    (o : Option Identity) (a : Actor)
    → actor_of o ≡ some a
    → (i : Identity) × (o ≡ some i) × (build_actor_context i ≡ a)
actor_of-eq-some none a h = cc
actor_of-eq-some (some i) a h = (i, refl, ground arith)

in_truthy :
    (own customer : Option String)
    → in_business (truthy own) customer ≡ true
    → (own ≢ none) × (customer ≡ own)
in_truthy none customer h = cc
in_truthy (some b) customer h = ground (arith, in_business_lem (some b) customer)

identity_of :
    (user : UserRow) (o : Option UserRow) (m : Option Membership) (ss : List BusinessScope)
    (requested : Option String) (i : Identity)
    → o ≡ some user
    → actor_for_business o m ss requested ≡ some i
    → (i.user ≡ user)
      × (i.technician ≡ none → i.business_id ≡ own_business m)
      × (user.is_active ≡ true)
unfolding actor_for_business
identity_of user none m ss requested i e h = cc
identity_of user (some x) m ss requested i e h = ground arith

module _ (intl : Intl) (rows : Rows) (now : ℕ) (user_id : String) (user : UserRow) (c : Computer)
    (found : rows.user user_id ≡ some user) (plain : user.is_platform_admin ≡ false) where
  stands :
      (id : String) (i : Identity)
      → actor_for_business
          (rows.user user_id)
          (rows.membership user_id)
          (resolve intl now (rows.assignments user_id)).scopes
          c.endpoint.customer_id
        ≡ some i
      → IsAllowed intl rows now (build_actor_context i) id c
      → (user.is_active ≡ true)
        × (is_open_business (business_of rows c) ≡ true)
        × Standing intl rows now user_id c
  unfolding build_actor_context
  stands id i h allowed =
      let m = rows.membership user_id in
      let (same, none_own, is_on) =
        identity_of user (rows.user user_id) m (resolve intl now (rows.assignments user_id)).scopes
          c.endpoint.customer_id i found h in
      let plain_i : i.user.is_platform_admin ≡ false = rw same plain in
      (
        is_on,
        (allowed.own_business plain_i).1,
        elim (Option-cases i.technician) [
          | inl n ↦
              let (some_own, e) =
                in_truthy i.business_id c.endpoint.customer_id (allowed.own_business plain_i).0 in
              Standing.member (λ z. some_own (sym e ∙ z)) (sym (none_own n) ∙ sym e)
          | inr (t, k) ↦
              let (b, o) =
                technician_reach intl now now (rows.assignments user_id) (rows.user user_id) m
                  c.endpoint.customer_id i t c.endpoint (rows.access id i.user.id) h k plain_i
                  allowed.is_reachable in
              Standing.technician t.business_id b o
        ],
      )

-- The right behind every decision for a user who is no Platform Admin, as of now.
pub authorized-Standing :
    (intl : Intl) (rows : Rows) (now : ℕ) (u id : String) (c : Computer) (actor : Actor)
    (user : UserRow)
    → rows.computer id ≡ some c
    → live_actor intl rows now u c.endpoint.customer_id ≡ some actor
    → authorize_connect intl rows now actor id ≡ ok tt
    → rows.user u ≡ some user
    → user.is_platform_admin ≡ false
    → (user.is_active ≡ true)
      × (is_archived_status c.status ≡ false)
      × (is_open_business (business_of rows c) ≡ true)
      × Standing intl rows now u c
unfolding live_actor
authorized-Standing intl rows now u id c actor user is_there is_live authorized found plain =
    let (c', there) = (authorize_connect_iff intl rows now actor id).0 authorized in
    let (i, hi, ei) =
      actor_of-eq-some
        (actor_for_business (rows.user u) (rows.membership u)
          (resolve intl now (rows.assignments u)).scopes c.endpoint.customer_id)
        actor is_live in
    let same_c : c' ≡ c = some_inj (sym there.is_there ∙ is_there) in
    let allowed : IsAllowed intl rows now (build_actor_context i) id c = rw (ei, ← same_c) there in
    let (on, opened, standing) = stands intl rows now u user c found plain id i hi allowed in
    (on, allowed.is_current, opened, standing)

-- The capability and the reach behind every decision on a computer.
pub authorized-reach :
    (intl : Intl) (rows : Rows) (now : ℕ) (actor : Actor) (id : String) (c : Computer)
    → rows.computer id ≡ some c
    → authorize_connect intl rows now actor id ≡ ok tt
    → (can actor computers_connect ≡ true)
      × (can_reach_endpoint intl actor c.endpoint (rows.access id actor.user_id) now ≡ true)
authorized-reach intl rows now actor id c is_there authorized =
    let (c', there) = (authorize_connect_iff intl rows now actor id).0 authorized in
    let same : c' ≡ c = some_inj (sym there.is_there ∙ is_there) in
    (there.is_permitted, rw (← same) there.is_reachable)

-- What a redemption that passes its checks rests on at that time, if its user is no Platform Admin:
-- the grant is unused and not expired, its computer is not archived and in a business that is
-- open, and its user is active and still a member of that business, or holds an assignment
-- that counts at that time and opens the computer.
pub check_grant-Standing :
    (intl : Intl) (decrypt : String → Option String) (rows : Rows) (now : ℕ) (row : Option Grant)
    (t : Ticket) (user : UserRow)
    → check_grant intl decrypt rows now row ≡ ok t
    → rows.user t.grant.user_id ≡ some user
    → user.is_platform_admin ≡ false
    → (row ≡ some t.grant)
      × (t.grant.used_at ≡ none)
      × (now ≤ t.grant.expires_at)
      × (user.is_active ≡ true)
      × ((c : Computer) × (rows.computer t.grant.endpoint_id ≡ some c)
          × (is_archived_status c.status ≡ false)
          × (is_open_business (business_of rows c) ≡ true)
          × Standing intl rows now t.grant.user_id c)
check_grant-Standing intl decrypt rows now row t user h found plain =
    let (e, ent) = check_grant-IsEntitled intl decrypt rows now row t h in
    let (on, current, opened, standing) =
      authorized-Standing intl rows now t.grant.user_id t.grant.endpoint_id ent.computer ent.actor
        user ent.is_there ent.is_live ent.authorized found plain in
    (e, ent.unused, ent.in_time, on, (ent.computer, ent.is_there, current, opened, standing))
