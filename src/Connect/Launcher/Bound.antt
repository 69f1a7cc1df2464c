-- ===== src/Connect/Launcher/Bound.antt =====
-- What a launcher token is made for.
use rem0te.Rbac.Capability.{computers_connect}
use rem0te.Rbac.Access.Isolation.{resolve_scope-pinned}
use rem0te.Auth.Jwt.{truthy}
use rem0te.Session.State.{SessionStatus-discrete}
use rem0te.Connect.Quick.{Switches, assert_usable, QuickDenial}
use rem0te.Connect.{Rows, Computer, Node, can_connect}
use rem0te.Connect.Grant.{enrolled_node}
use rem0te.Rbac.Access.{
  allowed, not_found, forbidden, resolve_scope, Access, assert_capability, assert_endpoint_in_scope,
}
use rem0te.Schedule.{Intl}
use rem0te.Connect.Launcher.{
  present, issue_token, may_bind, launch_target, Launch, bound_session, LaunchSession, equal_ids,
  pre_client, LauncherToken, for_target, LaunchError, in_launch_scope, permit, as_quick,
  endpoint_of, rustdesk_of, LauncherPayload, has_token,
}
use rem0te.Rbac.Actor.{Actor}
use rem0te.Prelude.{
  [], ◌∷◌, none, some, true, false, ◌>>=◌, ◌>>◌, refl, arith, inl, inr, not, ◌&&◌, ap, sym, ◌∙◌,
  is_some, any, Option, String, ◌≡◌, includes, eq_iff, ℕ, ok, ◌≢◌, throw_if-eq-ok, Option-cases,
  >>=-eq-ok, throw_if, ok-inj, Bool, Result, err, List,
}

equal_ids-true : (a : Option String) (b : String) → equal_ids a (some b) ≡ true → a ≡ some b
equal_ids-true none b h = cc
equal_ids-true (some a) b h = ground (arith, eq_iff a b)

-- The session that a token is bound to: the caller runs it, its client was not opened, it is in the
-- caller's business unless a Platform Admin calls, and it is for the computer or the RustDesk id of
-- the token.
pub record IsOwn (actor : Actor) (t : LauncherToken) (x : LaunchSession) : Type 0 where
  pub runs : x.technician_id ≡ some actor.user_id
  pub is_before_client : includes SessionStatus-discrete x.status pre_client ≡ true
  pub in_business : actor.is_platform_admin ≡ false → x.customer_id ≡ actor.business_id
  pub same_computer : (e : String) → truthy t.target_endpoint_id ≡ some e → x.endpoint_id ≡ some e
  pub same_id :
      truthy t.target_endpoint_id ≡ none
      → (x.is_ad_hoc ≡ true) × (x.ad_hoc_rustdesk_id ≡ t.target_rustdesk_id)

-- What a token opens: the computer that it names, by the RustDesk id of its node and for somebody
-- who may connect to it, or the RustDesk id that was asked for, past the switches of Quick Connect.
pub data Opens (intl : Intl) (rows : Rows) (s : Switches) (now : ℕ) (actor : Actor) (dto : Launch)
    (t : LauncherToken) : Type 0 where
  computer :
      (e : String) (c : Computer) (n : Node)
      → truthy t.target_endpoint_id ≡ some e
      → rows.computer e ≡ some c
      → enrolled_node c ≡ some n
      → t.target_rustdesk_id ≡ some n.rustdesk_id
      → can_connect intl rows now actor e ≡ true
      → Opens intl rows s now actor dto t
  ad_hoc :
      (id : String)
      → truthy t.target_endpoint_id ≡ none
      → truthy dto.ad_hoc_rustdesk_id ≡ some id
      → t.target_rustdesk_id ≡ some id
      → assert_usable s actor ≡ ok tt
      → Opens intl rows s now actor dto t

in_scope-true :
    (scope : Option String) (x : LaunchSession)
    → scope ≢ none
    → in_launch_scope scope x ≡ true
    → x.customer_id ≡ scope
in_scope-true none x n h = absurd (n refl)
in_scope-true (some b) x n h = equal_ids-true x.customer_id b h

computer_target :
    (dto : Launch) (x : LaunchSession) (e : String)
    → for_target dto x ≡ true
    → truthy dto.endpoint_id ≡ some e
    → x.endpoint_id ≡ some e
computer_target dto x e h k = equal_ids-true x.endpoint_id e (ground (arith, k))

truthy-some : (o : Option String) (i : String) → truthy o ≡ some i → o ≡ some i
truthy-some none i h = cc
truthy-some (some x) i h = ground arith

ad_hoc_target :
    (dto : Launch) (x : LaunchSession) (i : String)
    → for_target dto x ≡ true
    → truthy dto.endpoint_id ≡ none
    → dto.ad_hoc_rustdesk_id ≡ some i
    → (x.is_ad_hoc ≡ true) × (x.ad_hoc_rustdesk_id ≡ some i)
ad_hoc_target dto x i h k a =
    (ground (arith, k), equal_ids-true x.ad_hoc_rustdesk_id i (ground (arith, k, a)))

present-eq-ok {ℓ} :
    {A : Type ℓ} (e : LaunchError) (o : Option A) (a : A) → present e o ≡ ok a → o ≡ some a
present-eq-ok e none a h = cc
present-eq-ok e (some x) a h = cc

-- The columns of a token that a session is compared with.
record IsMadeFor (dto : Launch) (t : LauncherToken) (target : String) : Type 0 where
  named : t.target_endpoint_id ≡ dto.endpoint_id
  given : t.target_rustdesk_id ≡ some target
  asked : truthy dto.endpoint_id ≡ none → dto.ad_hoc_rustdesk_id ≡ some target

may_bind-IsOwn :
    (actor : Actor) (scope : Option String) (dto : Launch) (t : LauncherToken) (target : String)
    (x : LaunchSession)
    → resolve_scope actor none ≡ allowed scope
    → IsMadeFor dto t target
    → may_bind actor scope dto x ≡ true
    → IsOwn actor t x
unfolding may_bind
may_bind-IsOwn actor scope dto t target x e m h = record {
  runs = equal_ids-true x.technician_id actor.user_id (ground arith);
  is_before_client = ground arith;
  in_business = λ n.
      let ((same, some_own), _) = (resolve_scope-pinned actor none scope n).0 e in
      in_scope-true scope x (λ z. some_own (sym same ∙ z)) (ground arith) ∙ same;
  same_computer = λ i k. computer_target dto x i (ground arith) (ap truthy (sym m.named) ∙ k);
  same_id = λ k.
      let plain : truthy dto.endpoint_id ≡ none = ap truthy (sym m.named) ∙ k in
      let (quick, same) = ad_hoc_target dto x target (ground arith) plain (m.asked plain) in
      (quick, same ∙ sym m.given);
}

permit-eq-ok {ℓ} :
    {A : Type ℓ} (e : LaunchError) (m : Access A) (a : A) → permit e m ≡ ok a → m ≡ allowed a
permit-eq-ok e (allowed x) a h = cc
permit-eq-ok e forbidden a h = cc
permit-eq-ok e not_found a h = cc

not-false : (b : Bool) → not b ≡ false → b ≡ true
not-false b h = ground arith

bound_session-IsOwn :
    (sessions : String → Option LaunchSession) (actor : Actor) (dto : Launch) (t : LauncherToken)
    (target : String) (o : Option LaunchSession) (x : String)
    → IsMadeFor dto t target
    → bound_session sessions actor dto ≡ ok o
    → truthy dto.session_id ≡ some x
    → (row : LaunchSession) × (sessions x ≡ some row) × IsOwn actor t row
unfolding bound_session
bound_session-IsOwn sessions actor dto t target o x m h e =
    let run : (permit LaunchError.session_not_found (resolve_scope actor none) >>= λ scope.
    present LaunchError.session_not_found (sessions x) >>= λ y.
    throw_if (not (may_bind actor scope dto y)) LaunchError.session_not_found >> ok (some y))
        ≡ ok o =
      ground (arith, e) in
    let (scope, es, h1) =
      >>=-eq-ok (permit LaunchError.session_not_found (resolve_scope actor none)) _ run in
    let (y, ey, h2) = >>=-eq-ok (present LaunchError.session_not_found (sessions x)) _ h1 in
    let (may, h3) =
      throw_if-eq-ok (not (may_bind actor scope dto y)) LaunchError.session_not_found (ok (some y))
        h2 in
    (
      y,
      present-eq-ok LaunchError.session_not_found (sessions x) y ey,
      may_bind-IsOwn actor scope dto t target y
          (permit-eq-ok LaunchError.session_not_found (resolve_scope actor none) scope es) m
          (not-false (may_bind actor scope dto y) may),
    )

as_quick-eq-ok : (m : Result QuickDenial (Unit {0})) (u : Unit {0}) → as_quick m ≡ ok u → m ≡ ok tt
as_quick-eq-ok (err e) u h = cc
as_quick-eq-ok (ok v) u h = refl

rustdesk_of-some :
    (o : Option Computer) (i : String)
    → rustdesk_of o ≡ some i
    → (c : Computer) × (n : Node) × (o ≡ some c) × (enrolled_node c ≡ some n) × (n.rustdesk_id ≡ i)
rustdesk_of-some none i h = cc
rustdesk_of-some (some c) i h = elim (Option-cases (enrolled_node c)) [
  | inl e ↦ absurd (ground (arith, e))
  | inr (n, e) ↦ (c, n, refl, e, ground (arith, e))
]

module _ (intl : Intl) (rows : Rows) (s : Switches) (now : ℕ) (actor : Actor) (dto : Launch)
    (target : String) (h : launch_target intl rows s now actor dto ≡ ok target) where
  computer_run :
      (e : String)
      → truthy dto.endpoint_id ≡ some e
      → (permit LaunchError.computer_not_found
            (assert_endpoint_in_scope actor (endpoint_of (rows.computer e)))
          >>= λ x.
              throw_if (not (can_connect intl rows now actor e)) LaunchError.computer_not_found
              >> present LaunchError.no_rustdesk_id (rustdesk_of (rows.computer e)))
        ≡ ok target
  unfolding launch_target
  computer_run e k = ground (arith, k)

  quick_run :
      truthy dto.endpoint_id ≡ none
      → (as_quick (assert_usable s actor)
          >> present LaunchError.nothing_named (truthy dto.ad_hoc_rustdesk_id))
        ≡ ok target
  unfolding launch_target
  quick_run k = ground (arith, k)

  target_Opens :
      (t : LauncherToken)
      → t.target_endpoint_id ≡ dto.endpoint_id
      → t.target_rustdesk_id ≡ some target
      → Opens intl rows s now actor dto t
  target_Opens t named given = elim (Option-cases (truthy dto.endpoint_id)) [
    | inl k ↦
        let (u, eu, h1) = >>=-eq-ok (as_quick (assert_usable s actor)) _ (quick_run k) in
        Opens.ad_hoc target (ap truthy named ∙ k)
          (present-eq-ok LaunchError.nothing_named (truthy dto.ad_hoc_rustdesk_id) target h1) given
          (as_quick-eq-ok (assert_usable s actor) u eu)
    | inr (e, k) ↦
        let (x, ex, h1) =
          >>=-eq-ok
            (permit LaunchError.computer_not_found
              (assert_endpoint_in_scope actor (endpoint_of (rows.computer e))))
            _ (computer_run e k) in
        let (may, h2) =
          throw_if-eq-ok (not (can_connect intl rows now actor e)) LaunchError.computer_not_found
            (present LaunchError.no_rustdesk_id (rustdesk_of (rows.computer e))) h1 in
        let (c, n, ec, en, same) =
          rustdesk_of-some (rows.computer e) target
            (present-eq-ok LaunchError.no_rustdesk_id (rustdesk_of (rows.computer e)) target h2) in
        Opens.computer e c n (ap truthy named ∙ k) ec en (given ∙ ap some (sym same))
          (not-false (can_connect intl rows now actor e) may)
  ]

  asked_id : truthy dto.endpoint_id ≡ none → dto.ad_hoc_rustdesk_id ≡ some target
  asked_id k =
      let (u, eu, h1) = >>=-eq-ok (as_quick (assert_usable s actor)) _ (quick_run k) in
      truthy-some dto.ad_hoc_rustdesk_id target
        (present-eq-ok LaunchError.nothing_named (truthy dto.ad_hoc_rustdesk_id) target h1)

-- A launcher token is the caller's and for the computer that was asked for, if any: it opens that
-- computer by its RustDesk id, for somebody who may connect to it, or, without a computer, the
-- RustDesk id that was asked for, past the switches of Quick Connect. Its payload says the caller's
-- business. The session that it is bound to, if any, is one whose client was not opened, run by
-- the caller, for the target of the token, and, unless the caller is a Platform Admin, in the
-- caller's business.
pub issue_token-IsOwn :
    (intl : Intl) (rows : Rows) (s : Switches) (sessions : String → Option LaunchSession) (now : ℕ)
    (actor : Actor) (tenant : Option String) (dto : Launch) (id hash : String)
    (ts : List LauncherToken) (t : LauncherToken) (p : LauncherPayload)
    → issue_token intl rows s sessions now actor tenant dto id hash ts ≡ ok (t, p)
    → (t.user_id ≡ actor.user_id)
      × (p.business_id ≡ truthy actor.business_id)
      × (t.target_endpoint_id ≡ dto.endpoint_id)
      × Opens intl rows s now actor dto t
      × (t.support_session_id ≡ dto.session_id)
      × ((x : String)
          → truthy t.support_session_id ≡ some x
          → (row : LaunchSession) × (sessions x ≡ some row) × IsOwn actor t row)
unfolding issue_token
issue_token-IsOwn intl rows s sessions now actor tenant dto id hash ts t p h =
    let (_, h1) =
      throw_if-eq-ok
        (not (is_some (truthy dto.endpoint_id)) && not (is_some (truthy dto.ad_hoc_rustdesk_id)))
        LaunchError.nothing_named _ h in
    let (u, eu, h2) =
      >>=-eq-ok
        (permit LaunchError.nothing_named (assert_capability actor (computers_connect ∷ []))) _
        h1 in
    let (target, et, h3) = >>=-eq-ok (launch_target intl rows s now actor dto) _ h2 in
    let (o, eo, h4) = >>=-eq-ok (bound_session sessions actor dto) _ h3 in
    let (_, h5) = throw_if-eq-ok (not (is_some (truthy tenant))) LaunchError.no_tenant _ h4 in
    let (_, h6) =
      throw_if-eq-ok (any (has_token dto.session_id) ts) LaunchError.session_has_token _ h5 in
    let made = ok-inj h6 in
    let named = sym (ap (λ x. x.0.target_endpoint_id) made) in
    let given = sym (ap (λ x. x.0.target_rustdesk_id) made) in
    let stored = sym (ap (λ x. x.0.support_session_id) made) in
    let for_dto : IsMadeFor dto t target = record {
      named = named;
      given = given;
      asked = asked_id intl rows s now actor dto target et;
    } in
    (
      sym (ap (λ x. x.0.user_id) made),
      sym (ap (λ x. x.1.business_id) made),
      named,
      target_Opens intl rows s now actor dto target et t named given,
      stored,
      λ x k.
          bound_session-IsOwn sessions actor dto t target o x for_dto eo
            (ap truthy (sym stored) ∙ k),
    )
