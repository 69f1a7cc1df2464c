-- ===== src/Connect/Launcher.antt =====
-- Launcher tokens: apps/api/src/launcher/launcher.service.ts. The JWT library signs and verifies, and
-- `hash` is the digest of a token.
use rem0te.Rbac.Capability.{computers_connect}
use rem0te.Connect.Grant.{enrolled_node}
use rem0te.Auth.Jwt.{truthy}
use rem0te.Session.State.{SessionStatus-discrete, SessionStatus}
use rem0te.Schedule.{Intl}
use rem0te.Rbac.Actor.{Actor}
use rem0te.Connect.{can_connect, Computer, Rows}
use rem0te.Connect.Quick.{QuickDenial, assert_usable, Switches}
use rem0te.Rbac.Access.{
  forbidden, not_found, allowed, resolve_scope, assert_capability, assert_endpoint_in_scope, Access,
  Endpoint,
}
use rem0te.Prelude.{
  [], ◌∷◌, none, some, true, false, ◌>>=◌, ◌>>◌, refl, arith, inl, inr, not, ◌&&◌, ◌||◌, ap, sym,
  ◌∙◌, is_some, is_nil, any, all, zero, suc, if◌then◌else◌, Option, String, Result, List, includes,
  Bool, ℕ, str_eq, err, ok, throw_if, ◌+◌,
}
pub mod Bound
pub mod Validate
pub mod Backed

-- The text of a launch link is a JWT of this payload: a launcher's, with the business it was
-- minted in.
pub record LauncherPayload : Type 0 where
  pub is_launcher : Bool  -- `type === 'launcher'`
  pub business_id : Option String

pub record LauncherToken : Type 0 where
  pub id : String
  pub token_hash : String
  pub user_id : String
  pub expires_at : ℕ
  pub used_at : Option ℕ
  pub revoked_at : Option ℕ
  pub target_endpoint_id : Option String
  pub target_rustdesk_id : Option String
  pub support_session_id : Option String

-- The columns of a session that a token is bound by.
pub record LaunchSession : Type 0 where
  pub id : String
  pub technician_id : Option String
  pub status : SessionStatus
  pub customer_id : Option String
  pub endpoint_id : Option String
  pub is_ad_hoc : Bool
  pub ad_hoc_rustdesk_id : Option String

pub data LaunchError : Type 0 where
  nothing_named forbidden_launch computer_not_found no_rustdesk_id : LaunchError
  session_not_found no_tenant session_has_token : LaunchError
  quick_denied : QuickDenial → LaunchError

-- what the launcher is asked to open
pub record Launch : Type 0 where
  pub endpoint_id : Option String
  pub ad_hoc_rustdesk_id : Option String
  pub session_id : Option String

abbrev pub permit {ℓ} : {A : Type ℓ} → LaunchError → Access A → Result LaunchError A
permit e (allowed a) = ok a
permit e forbidden = err forbidden_launch
permit e not_found = err e

abbrev pub present {ℓ} : {A : Type ℓ} → LaunchError → Option A → Result LaunchError A
present e none = err e
present e (some a) = ok a

abbrev pub as_quick : Result QuickDenial (Unit {0}) → Result LaunchError (Unit {0})
as_quick (err e) = err (quick_denied e)
as_quick (ok u) = ok u

abbrev pub endpoint_of : Option Computer → Option Endpoint
endpoint_of none = none
endpoint_of (some c) = some c.endpoint

abbrev pub rustdesk_of : Option Computer → Option String
rustdesk_of none = none
rustdesk_of (some c) = elim (enrolled_node c) [ none ↦ none | some n ↦ some n.rustdesk_id ]

-- The RustDesk id of the target: of a computer, or as it was named.
unfoldable pub launch_target :
    Intl → Rows → Switches → ℕ → Actor → Launch → Result LaunchError String
unfolding assert_endpoint_in_scope can_connect assert_usable
launch_target intl rows s now actor dto = elim (truthy dto.endpoint_id) [
  | some id ↦ do
    e ← permit computer_not_found (assert_endpoint_in_scope actor (endpoint_of (rows.computer id)))
    throw_if (not (can_connect intl rows now actor id)) computer_not_found
    present no_rustdesk_id (rustdesk_of (rows.computer id))
  | none ↦ do
    as_quick (assert_usable s actor)
    present nothing_named (truthy dto.ad_hoc_rustdesk_id)
]

abbrev pub pre_client : List SessionStatus
pre_client =
    SessionStatus.pending ∷ SessionStatus.launch_requested ∷ SessionStatus.launcher_acknowledged
    ∷ []

abbrev pub equal_ids : Option String → Option String → Bool
equal_ids (some a) (some b) = str_eq a b
equal_ids _ _ = false

abbrev pub for_target : Launch → LaunchSession → Bool
for_target dto x = elim (truthy dto.endpoint_id) [
  | some id ↦ equal_ids x.endpoint_id (some id)
  | none ↦ x.is_ad_hoc && equal_ids x.ad_hoc_rustdesk_id dto.ad_hoc_rustdesk_id
]

abbrev pub in_launch_scope : Option String → LaunchSession → Bool
in_launch_scope none x = true
in_launch_scope (some b) x = equal_ids x.customer_id (some b)

-- the `where` of the session that a token may be bound to
unfoldable pub may_bind : Actor → Option String → Launch → LaunchSession → Bool
unfolding includes SessionStatus-discrete
may_bind actor scope dto x =
    equal_ids x.technician_id (some actor.user_id)
    && includes SessionStatus-discrete x.status pre_client
    && in_launch_scope scope x
    && for_target dto x

-- `sessions` finds a session by its id.
unfoldable pub bound_session :
    (String → Option LaunchSession) → Actor → Launch → Result LaunchError (Option LaunchSession)
unfolding resolve_scope may_bind
bound_session sessions actor dto = elim (truthy dto.session_id) [
  | none ↦ ok none
  | some id ↦ do
    scope ← permit session_not_found (resolve_scope actor none)
    x ← present session_not_found (sessions id)
    throw_if (not (may_bind actor scope dto x)) session_not_found
    ok (some x)
]

-- The column of the session is unique: the table takes one token for it.
abbrev pub has_token : Option String → LauncherToken → Bool
has_token none t = false
has_token (some x) t = equal_ids t.support_session_id (some x)

-- The new row and the payload of its JWT, whose session is stored as it was asked for; `id` and `hash` are of the row, and `tenant` is the
-- actor's.
unfoldable pub issue_token :
    Intl
    → Rows
    → Switches
    → (String → Option LaunchSession)
    → ℕ
    → Actor
    → Option String
    → Launch
    → String
    → String
    → List LauncherToken
    → Result LaunchError (LauncherToken × LauncherPayload)
unfolding assert_capability launch_target bound_session any
issue_token intl rows s sessions now actor tenant dto id hash ts = do
  throw_if (not (is_some (truthy dto.endpoint_id)) && not (is_some (truthy dto.ad_hoc_rustdesk_id)))
      nothing_named
  permit nothing_named (assert_capability actor (computers_connect ∷ []))
  target ← launch_target intl rows s now actor dto
  bound ← bound_session sessions actor dto
  throw_if (not (is_some (truthy tenant))) no_tenant
  throw_if (any (has_token dto.session_id) ts) session_has_token
  ok (
    record {
      id = id;
      token_hash = hash;
      user_id = actor.user_id;
      expires_at = now + 120000;
      used_at = none;
      revoked_at = none;
      target_endpoint_id = dto.endpoint_id;
      target_rustdesk_id = some target;
      support_session_id = dto.session_id;
    },
    record { is_launcher = true; business_id = truthy actor.business_id },
  )
