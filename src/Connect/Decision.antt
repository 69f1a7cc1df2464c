-- ===== src/Connect/Decision.antt =====
-- What a connection rests on.
use rem0te.Rbac.Capability.{computers_connect}
use rem0te.Auth.Jwt.{truthy}
use rem0te.Rbac.Access.{can_reach_endpoint, in_business, can}
use rem0te.Rbac.Actor.{Actor}
use rem0te.Prelude.{
  refl, is_some, ltb, not, ap, err, Result, Option, String, ℕ, ◌≡◌, ok, ◌↔◌, none, some, ◌≤◌,
  throw_if-eq-ok, Option-cases, >>=-eq-ok, inl, false, ok-inj, arith, inr, true,
}
use rem0te.Connect.{
  authorize_connect, Rows, Denial, Computer, is_archived_status, live_actor, is_open_business,
  business_of,
}
use rem0te.Schedule.{Intl}
use rem0te.Connect.Grant.{
  already_used, grant_expired, user_inactive, grant_not_found, not_enrolled, enrolled_node,
  open_password, is_active_user, Grant, as_denied, check_grant, RedeemError, or_fail, Ticket,
}

-- What a redemption has found to hold: the grant is the one read, unused and not expired, its user
-- is active, and their actor, as of now, passes the decision of every connection.
pub record IsEntitled (intl : Intl) (rows : Rows) (now : ℕ) (g : Grant) : Type 0 where
  pub computer : Computer
  pub actor : Actor
  pub unused : g.used_at ≡ none
  pub in_time : now ≤ g.expires_at
  pub is_there : rows.computer g.endpoint_id ≡ some computer
  pub is_live : live_actor intl rows now g.user_id computer.endpoint.customer_id ≡ some actor
  pub authorized : authorize_connect intl rows now actor g.endpoint_id ≡ ok tt

-- What the decision lets through: a computer that is there and not archived, for somebody with the
-- capability and within their reach; and without Platform Admin only in the actor's own business,
-- while it is open.
pub record IsAllowed (intl : Intl) (rows : Rows) (now : ℕ) (actor : Actor) (id : String)
    (c : Computer) : Type 0 where
  pub is_there : rows.computer id ≡ some c
  pub is_current : is_archived_status c.status ≡ false
  pub own_business :
      actor.is_platform_admin ≡ false
      → (in_business (truthy actor.business_id) c.endpoint.customer_id ≡ true)
        × (is_open_business (business_of rows c) ≡ true)
  pub is_permitted : can actor computers_connect ≡ true
  pub is_reachable :
      can_reach_endpoint intl actor c.endpoint (rows.access id actor.user_id) now ≡ true

-- The guards of the decision, read off its result.
pub authorize_connect_iff :
    (intl : Intl) (rows : Rows) (now : ℕ) (actor : Actor) (id : String)
    → (authorize_connect intl rows now actor id ≡ ok tt)
      ↔ ((c : Computer) × IsAllowed intl rows now actor id c)
unfolding authorize_connect
authorize_connect_iff intl rows now actor id = (
  λ h. elim (Option-cases (rows.computer id)) [
    | inl e ↦ absurd (ground (arith, e))
    | inr (c, e) ↦ (
      c,
      record {
        is_there = e;
        is_current = ground arith;
        own_business = λ n. ground (arith, e, n);
        is_permitted = ground arith;
        is_reachable = ground arith;
      },
    )
  ],
  λ (c, a).
      ground (arith, a.is_there, a.is_current, a.own_business, a.is_permitted, a.is_reachable),
)

or_fail-eq-ok {ℓ} :
    {A : Type ℓ} (e : RedeemError) (o : Option A) (a : A) → or_fail e o ≡ ok a → o ≡ some a
or_fail-eq-ok e none a h = cc
or_fail-eq-ok e (some x) a h = cc

as_denied-eq-ok : (m : Result Denial (Unit {0})) (u : Unit {0}) → as_denied m ≡ ok u → m ≡ ok tt
as_denied-eq-ok (err e) u h = cc
as_denied-eq-ok (ok u) v h = refl

pub check_grant-IsEntitled :
    (intl : Intl) (decrypt : String → Option String) (rows : Rows) (now : ℕ) (row : Option Grant)
    (t : Ticket)
    → check_grant intl decrypt rows now row ≡ ok t
    → (row ≡ some t.grant) × IsEntitled intl rows now t.grant
unfolding check_grant
check_grant-IsEntitled intl decrypt rows now none t h = cc
check_grant-IsEntitled intl decrypt rows now (some g) t h =
    let (used, h1) = throw_if-eq-ok (is_some g.used_at) already_used _ h in
    let (late, h2) = throw_if-eq-ok (ltb g.expires_at now) grant_expired _ h1 in
    let (live, h3) =
      throw_if-eq-ok (not (is_active_user (rows.user g.user_id))) user_inactive _ h2 in
    let (c, ec, h4) = >>=-eq-ok (or_fail grant_not_found (rows.computer g.endpoint_id)) _ h3 in
    let (a, ea, h5) =
      >>=-eq-ok (or_fail user_inactive (live_actor intl rows now g.user_id c.endpoint.customer_id))
        _ h4 in
    let (u, eu, h6) =
      >>=-eq-ok (as_denied (authorize_connect intl rows now a g.endpoint_id)) _ h5 in
    let (n, en, h7) = >>=-eq-ok (or_fail not_enrolled (enrolled_node c)) _ h6 in
    let (p, ep, h8) = >>=-eq-ok (open_password decrypt n) _ h7 in
    let same : record { grant = g; rustdesk_id = n.rustdesk_id; password = p } ≡ t = ok-inj h8 in
    (
      ap (λ t. some t.grant) same,
      rw (← ap (λ t. t.grant) same) (record {
        computer = c;
        actor = a;
        unused = ground arith;
        in_time = ground arith;
        is_there = or_fail-eq-ok grant_not_found (rows.computer g.endpoint_id) c ec;
        is_live =
            or_fail-eq-ok user_inactive (live_actor intl rows now g.user_id c.endpoint.customer_id)
              a ea;
        authorized = as_denied-eq-ok (authorize_connect intl rows now a g.endpoint_id) u eu;
      }),
    )
