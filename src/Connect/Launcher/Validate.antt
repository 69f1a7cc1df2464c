-- ===== src/Connect/Launcher/Validate.antt =====
-- Redeeming a launcher token: `validateToken`, `recheckAuthorization` and `revokeToken` of
-- apps/api/src/launcher/launcher.service.ts.
use rem0te.Auth.Jwt.{truthy}
use rem0te.Connect.Launcher.{LauncherToken, LauncherPayload}
use rem0te.Connect.Quick.{QuickDenial, assert_usable, Switches}
use rem0te.Session.State.{EventInput, EventType, EventSource}
use rem0te.Rbac.Actor.{Actor}
use rem0te.Schedule.{Intl}
use rem0te.Connect.{live_actor, can_connect, Computer, Rows}
use rem0te.Session.Events.{no_options, record_event}
use rem0te.Session.Store.{Db, fixed}
use rem0te.Prelude.Json.{Json, Fields}
use rem0te.Prelude.{
  [], ◌∷◌, none, some, ◌>>=◌, ◌>>◌, not, ◌&&◌, ◌||◌, is_some, any, if◌then◌else◌, update_many,
  String, ℕ, Result, Option, List, Bool, err, str_eq, throw_if, ok, get_or, append_text, ◌==◌, ltb,
}

pub data Stale : Type 0 where
  endpoint_gone user_inactive no_longer_authorized quick_connect_not_usable : Stale

pub data TokenError : Type 0 where
  bad_token wrong_type token_not_found revoked used expired : TokenError
  stale : Stale → TokenError

abbrev pub actor_or : Option Actor → Result Stale Actor
actor_or none = err user_inactive
actor_or (some a) = ok a

abbrev pub computer_or : Option Computer → Result Stale Computer
computer_or none = err endpoint_gone
computer_or (some c) = ok c

abbrev pub usable_or : Result QuickDenial (Unit {0}) → Result Stale (Unit {0})
usable_or (err e) = err quick_connect_not_usable
usable_or (ok u) = ok u

-- the authority of a token's user as of now
unfoldable pub recheck_authorization :
    Intl → Rows → Switches → ℕ → LauncherToken → LauncherPayload → Result Stale (Unit {0})
unfolding live_actor can_connect assert_usable
recheck_authorization intl rows s now r p = elim (truthy r.target_endpoint_id) [
  | some id ↦ do
    c ← computer_or (rows.computer id)
    actor ← actor_or (live_actor intl rows now r.user_id c.endpoint.customer_id)
    throw_if (not (can_connect intl rows now actor id)) no_longer_authorized
    ok tt
  | none ↦ do
    actor ← actor_or (live_actor intl rows now r.user_id p.business_id)
    usable_or (assert_usable s actor)
]

unfoldable pub find_token : String → List LauncherToken → Option LauncherToken
find_token hash [] = none
find_token hash (t ∷ ts) =
    let rest = find_token hash ts in if str_eq t.token_hash hash then some t else rest

abbrev pub token_or {ℓ} : {A : Type ℓ} → TokenError → Option A → Result TokenError A
token_or e none = err e
token_or e (some a) = ok a

abbrev pub stale_or : Result Stale (Unit {0}) → Result TokenError (Unit {0})
stale_or (err e) = err (stale e)
stale_or (ok u) = ok u

-- What is read before the token is claimed. `verified` is the payload, if the signature is right
-- and the JWT is not expired.
unfoldable pub check_token :
    Intl
    → Rows
    → Switches
    → ℕ
    → Option LauncherPayload
    → Option LauncherToken
    → Result TokenError LauncherToken
unfolding recheck_authorization
check_token intl rows s now verified row = do
  p ← token_or bad_token verified
  throw_if (not p.is_launcher) wrong_type
  r ← token_or token_not_found row
  throw_if (is_some r.revoked_at) revoked
  throw_if (is_some r.used_at) used
  throw_if (ltb r.expires_at now) expired
  stale_or (recheck_authorization intl rows s now r p)
  ok r

abbrev pub unclaimed : String → LauncherToken → Bool
unclaimed id t = str_eq t.id id && not (is_some t.used_at) && not (is_some t.revoked_at)

abbrev pub unused : String → LauncherToken → Bool
unused id t = str_eq t.id id && not (is_some t.used_at)

-- the update that decides who redeems a token
unfoldable pub claim_token :
    ℕ → LauncherToken → List LauncherToken → Result TokenError (List LauncherToken)
unfolding update_many
claim_token now r ts = do
  let (ts', count) = update_many (unclaimed r.id) (λ t. record t { used_at = some now }) ts
  throw_if (count == 0) used
  ok ts'

-- A token whose user has lost the authority is revoked.
abbrev pub after_refusal :
    ℕ → TokenError → Option LauncherToken → List LauncherToken → List LauncherToken
after_refusal now (stale e) (some r) ts =
    (update_many (unused r.id) (λ t. record t { revoked_at = some now }) ts).0
after_refusal now _ row ts = ts

abbrev acknowledgement : ℕ → EventInput
acknowledgement now = record {
  type = EventType.launcher_acknowledged;
  source = EventSource.server;
  occurred_at = none;
  received_at = now;
}

-- Redeeming the token is the launcher acknowledging the launch of its session.
unfoldable pub acknowledge : (ℕ → Db → Db) → ℕ → LauncherToken → Db → Db
unfolding record_event
acknowledge others now r db = elim (truthy r.support_session_id) [
  | none ↦ db
  | some sid ↦
      (record_event (acknowledgement now)
        (record no_options {
          dedupe_key = some (fixed (append_text "launcher:" r.id));
          metadata = Fields.field "via" (Json.string "launcher_token") Fields.end;
        })
        others sid db).1
]

abbrev claimed_or :
    (ℕ → Db → Db)
    → ℕ
    → LauncherToken
    → List LauncherToken
    → Db
    → Result TokenError (List LauncherToken)
    → Result TokenError LauncherToken × List LauncherToken × Db
claimed_or others now r ts db (err e) = (err e, ts, db)
claimed_or others now r ts db (ok ts') = (ok r, ts', acknowledge others now r db)

-- A redemption with no other one between its read and its claim.
unfoldable pub validate_token :
    Intl
    → Rows
    → Switches
    → (ℕ → Db → Db)
    → ℕ
    → Option LauncherPayload
    → String
    → List LauncherToken
    → Db
    → Result TokenError LauncherToken × List LauncherToken × Db
unfolding check_token claim_token find_token
validate_token intl rows s others now verified hash ts db =
    let row = find_token hash ts in
    elim (check_token intl rows s now verified row) [
      | err e ↦ (err e, after_refusal now e row ts, db)
      | ok r ↦ claimed_or others now r ts db (claim_token now r ts)
    ]

-- `of_business` tells whether a user has a membership in a business.
unfoldable pub revoke_token :
    (String → String → Bool)
    → ℕ
    → Actor
    → String
    → List LauncherToken
    → Result TokenError (List LauncherToken)
unfolding any update_many
revoke_token of_business now actor id ts =
    let mine : LauncherToken → Bool = λ t.
      str_eq t.id id
      && (actor.is_platform_admin
          || str_eq t.user_id actor.user_id
          || of_business t.user_id (get_or actor.business_id "__none__")) in
    if any mine ts
    then ok (update_many (λ t. str_eq t.id id) (λ t. record t { revoked_at = some now }) ts).0
    else err token_not_found
