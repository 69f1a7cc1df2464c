-- ===== src/Connect.antt =====
-- Who may connect to a computer: `authorizeConnect`, `canConnect` and `liveActor` of
-- apps/api/src/endpoints/endpoints.service.ts. The rows that a decision reads are given, as they are
-- when it is made.
use rem0te.Rbac.Capability.{computers_connect}
use rem0te.Auth.Jwt.{truthy}
use rem0te.Rbac.Technician.{Business, resolve, Assignment, ComputerAccess}
use rem0te.Schedule.{Intl}
use rem0te.Rbac.Access.{Endpoint, can, can_reach_endpoint, in_business}
use rem0te.Rbac.Actor.{
  actor_for_business, UserRow, build_actor_context, TechnicianContext, Identity, Actor, Membership,
}
use rem0te.Prelude.{
  none, some, List, String, ◌>>=◌, ◌>>◌, Bool, true, false, not, ◌&&◌, Option, Result, err, ok, ℕ,
  throw_if,
}
pub mod Grant
pub mod Single
pub mod Delivery
pub mod Decision
pub mod Standing
pub mod Quick
pub mod Launcher
mod Tests

-- `EndpointStatus` of the schema
pub data ComputerStatus : Type 0 where
  active offline archived pending_enrollment : ComputerStatus

pub record Node : Type 0 where
  pub rustdesk_id : String
  pub permanent_password : Option String

pub record Computer : Type 0 where
  pub endpoint : Endpoint
  pub status : ComputerStatus
  pub node : Option Node

-- The rows that connecting reads: of a user, their active membership and the assignments that are
-- theirs, of a computer, a business, and the access row of a computer and a user.
pub record Rows : Type 0 where
  pub user : String → Option UserRow
  pub membership : String → Option Membership
  pub assignments : String → List Assignment
  pub computer : String → Option Computer
  pub business : String → Option Business
  pub access : String → String → Option ComputerAccess

pub data Denial : Type 0 where
  endpoint_not_found wrong_business business_disabled endpoint_archived : Denial
  missing_connect_permission outside_technician_assignment no_access : Denial

abbrev pub is_archived_status : ComputerStatus → Bool
is_archived_status archived = true
is_archived_status _ = false

-- `business?.isActive`, and not archived
abbrev pub is_open_business : Option Business → Bool
is_open_business none = false
is_open_business (some b) = b.is_active && not b.is_archived

abbrev pub business_of : Rows → Computer → Option Business
business_of rows c = elim c.endpoint.customer_id [ none ↦ none | some id ↦ rows.business id ]

abbrev pub found_computer : Option Computer → Result Denial Computer
found_computer none = err endpoint_not_found
found_computer (some c) = ok c

abbrev pub out_of_reach : Option TechnicianContext → Denial
out_of_reach none = no_access
out_of_reach (some t) = outside_technician_assignment

unfoldable pub authorize_connect : Intl → Rows → ℕ → Actor → String → Result Denial (Unit {0})
unfolding can can_reach_endpoint
authorize_connect intl rows now actor endpoint_id = do
  c ← found_computer (rows.computer endpoint_id)
  throw_if
      (not actor.is_platform_admin
        && not (in_business (truthy actor.business_id) c.endpoint.customer_id))
      wrong_business
  throw_if (not actor.is_platform_admin && not (is_open_business (business_of rows c)))
      business_disabled
  throw_if (is_archived_status c.status) endpoint_archived
  throw_if (not (can actor computers_connect)) missing_connect_permission
  throw_if
      (not (can_reach_endpoint intl actor c.endpoint (rows.access endpoint_id actor.user_id) now))
      (out_of_reach actor.technician)
  ok tt

abbrev pub is_ok : {E : Type 0} → Result E (Unit {0}) → Bool
is_ok (ok u) = true
is_ok (err e) = false

unfoldable pub can_connect : Intl → Rows → ℕ → Actor → String → Bool
unfolding authorize_connect
can_connect intl rows now actor endpoint_id =
    is_ok (authorize_connect intl rows now actor endpoint_id)

abbrev pub actor_of : Option Identity → Option Actor
actor_of none = none
actor_of (some i) = some (build_actor_context i)

-- the actor of a user now, in a business
unfoldable pub live_actor : Intl → Rows → ℕ → String → Option String → Option Actor
unfolding actor_for_business build_actor_context resolve
live_actor intl rows now user business = actor_of (
    actor_for_business (rows.user user) (rows.membership user)
      (resolve intl now (rows.assignments user)).scopes business)
