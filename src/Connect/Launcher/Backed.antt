-- ===== src/Connect/Launcher/Backed.antt =====
-- What the redemption of a launcher token rests on.
use rem0te.Rbac.Capability.{quick_connect, computers_connect}
use rem0te.Rbac.Access.{can, can_reach_endpoint}
use rem0te.Auth.Jwt.{truthy}
use rem0te.Connect.Launcher.{LauncherToken, LauncherPayload}
use rem0te.Connect.Launcher.Validate.{
  expired, computer_or, usable_or, actor_or, recheck_authorization, check_token, Stale,
  no_longer_authorized, stale_or, wrong_type, revoked, used,
}
use rem0te.Rbac.Actor.{Actor, UserRow}
use rem0te.Connect.Quick.{assert_usable, Switches, business_enabled}
use rem0te.Schedule.{Intl}
use rem0te.Connect.{
  can_connect, Rows, Computer, authorize_connect, is_archived_status, is_open_business, business_of,
  live_actor,
}
use rem0te.Connect.Standing.{Standing, authorized-Standing, authorized-reach}
use rem0te.Prelude.{
  none, some, true, false, ◌>>=◌, ◌>>◌, refl, arith, inl, inr, not, ap, is_some, Option, ℕ, String,
  ◌≡◌, ok, Result-cases, Option-cases, Result, >>=-eq-ok, ◌≤◌, throw_if, throw_if-eq-ok, err, ltb,
  ok-inj,
}

-- The right at the time of the redemption: on the computer that the token names, with the
-- capability to connect and within reach of the user's actor of that time, or to Quick Connect, past
-- its three switches.
pub data Backing (intl : Intl) (rows : Rows) (s : Switches) (now : ℕ) (r : LauncherToken)
    (p : LauncherPayload) : Type 0 where
  on_computer :
      (id : String) (c : Computer) (actor : Actor)
      → truthy r.target_endpoint_id ≡ some id
      → rows.computer id ≡ some c
      → is_archived_status c.status ≡ false
      → is_open_business (business_of rows c) ≡ true
      → Standing intl rows now r.user_id c
      → live_actor intl rows now r.user_id c.endpoint.customer_id ≡ some actor
      → can actor computers_connect ≡ true
      → can_reach_endpoint intl actor c.endpoint (rows.access id actor.user_id) now ≡ true
      → Backing intl rows s now r p
  by_quick_connect :
      (actor : Actor)
      → truthy r.target_endpoint_id ≡ none
      → live_actor intl rows now r.user_id p.business_id ≡ some actor
      → s.platform ≡ true
      → business_enabled s actor ≡ true
      → can actor quick_connect ≡ true
      → Backing intl rows s now r p

authorized_of :
    (intl : Intl) (rows : Rows) (now : ℕ) (actor : Actor) (id : String)
    → can_connect intl rows now actor id ≡ true
    → authorize_connect intl rows now actor id ≡ ok tt
unfolding can_connect
authorized_of intl rows now actor id h =
    elim (Result-cases (authorize_connect intl rows now actor id)) [
      | inl (e, k) ↦ absurd (ground (arith, k))
      | inr (tt, k) ↦ k
    ]

usable_lem :
    (s : Switches) (actor : Actor) (u : Unit {0})
    → usable_or (assert_usable s actor) ≡ ok u
    → (s.platform ≡ true) × (business_enabled s actor ≡ true) × (can actor quick_connect ≡ true)
unfolding assert_usable
usable_lem s actor u h = ground arith

computer_or-eq-ok : (o : Option Computer) (c : Computer) → computer_or o ≡ ok c → o ≡ some c
computer_or-eq-ok none c h = cc
computer_or-eq-ok (some x) c h = cc

actor_or-eq-ok : (o : Option Actor) (a : Actor) → actor_or o ≡ ok a → o ≡ some a
actor_or-eq-ok none a h = cc
actor_or-eq-ok (some x) a h = cc

stale_or-eq-ok : (m : Result Stale (Unit {0})) (u : Unit {0}) → stale_or m ≡ ok u → m ≡ ok u
stale_or-eq-ok (err e) u h = cc
stale_or-eq-ok (ok v) u h = refl

module _ (intl : Intl) (rows : Rows) (s : Switches) (now : ℕ) (r : LauncherToken)
    (p : LauncherPayload) (user : UserRow) (found : rows.user r.user_id ≡ some user)
    (plain : user.is_platform_admin ≡ false) where
  recheck_backs :
      (u : Unit {0})
      → recheck_authorization intl rows s now r p ≡ ok u
      → Backing intl rows s now r p
  unfolding recheck_authorization
  recheck_backs u h = elim (Option-cases (truthy r.target_endpoint_id)) [
    | inl e ↦
        let run : (actor_or (live_actor intl rows now r.user_id p.business_id) >>= λ a.
        usable_or (assert_usable s a))
            ≡ ok u =
          ground (arith, e) in
        let (a, ea, k) =
          >>=-eq-ok (actor_or (live_actor intl rows now r.user_id p.business_id)) _ run in
        let (on, enabled, may) = usable_lem s a u k in
        Backing.by_quick_connect a e
          (actor_or-eq-ok (live_actor intl rows now r.user_id p.business_id) a ea) on enabled may
    | inr (id, e) ↦
        let run : (computer_or (rows.computer id) >>= λ c.
        actor_or (live_actor intl rows now r.user_id c.endpoint.customer_id) >>= λ a.
        throw_if (not (can_connect intl rows now a id)) no_longer_authorized >> ok tt)
            ≡ ok u =
          ground (arith, e) in
        let (c, ec, k) = >>=-eq-ok (computer_or (rows.computer id)) _ run in
        let (a, ea, l) =
          >>=-eq-ok (actor_or (live_actor intl rows now r.user_id c.endpoint.customer_id)) _ k in
        let (may, _) =
          throw_if-eq-ok (not (can_connect intl rows now a id)) no_longer_authorized (ok tt) l in
        let there = computer_or-eq-ok (rows.computer id) c ec in
        let live =
          actor_or-eq-ok (live_actor intl rows now r.user_id c.endpoint.customer_id) a ea in
        let authorized = authorized_of intl rows now a id (ground arith) in
        let (_, current, opened, standing) =
          authorized-Standing intl rows now r.user_id id c a user there live authorized found
            plain in
        let (permitted, reachable) = authorized-reach intl rows now a id c there authorized in
        Backing.on_computer id c a e there current opened standing live permitted reachable
  ]

-- A launcher token that passes its checks is unused, not revoked and not expired, and, if its user
-- is no Platform Admin, that user has the right to the target now: on the computer, which is not
-- archived, with the capability to connect, within their reach and as a member of its open business
-- or by an assignment that opens it; or to Quick Connect past its switches.
pub check_token-Backing :
    (intl : Intl) (rows : Rows) (s : Switches) (now : ℕ) (verified : Option LauncherPayload)
    (row : Option LauncherToken) (r : LauncherToken) (user : UserRow)
    → check_token intl rows s now verified row ≡ ok r
    → rows.user r.user_id ≡ some user
    → user.is_platform_admin ≡ false
    → (row ≡ some r)
      × (r.used_at ≡ none)
      × (r.revoked_at ≡ none)
      × (now ≤ r.expires_at)
      × ((p : LauncherPayload) × (verified ≡ some p) × Backing intl rows s now r p)
unfolding check_token
check_token-Backing intl rows s now none row r user h found plain = cc
check_token-Backing intl rows s now (some p) none r user h found plain = absurd (ground arith)
check_token-Backing intl rows s now (some p) (some x) r user h found plain =
    let (_, h1) = throw_if-eq-ok (not p.is_launcher) wrong_type _ h in
    let (kept, h2) = throw_if-eq-ok (is_some x.revoked_at) revoked _ h1 in
    let (fresh, h3) = throw_if-eq-ok (is_some x.used_at) used _ h2 in
    let (in_time, h4) = throw_if-eq-ok (ltb x.expires_at now) expired _ h3 in
    let (u, eu, h5) = >>=-eq-ok (stale_or (recheck_authorization intl rows s now x p)) _ h4 in
    let same : x ≡ r = ok-inj h5 in
    let backing : Backing intl rows s now x p =
      recheck_backs intl rows s now x p user (rw same found) plain u
        (stale_or-eq-ok (recheck_authorization intl rows s now x p) u eu) in
    (
      ap some same,
      rw (← same) (ground arith),
      rw (← same) (ground arith),
      rw (← same) (ground arith),
      (p, refl, rw (← same) backing),
    )
