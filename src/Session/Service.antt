-- ===== src/Session/Service.antt =====
-- What a technician asks of a session: apps/api/src/sessions/sessions.service.ts, `create`,
-- `complete`, `cancel` and `addEvent`.
pub mod Rights
pub mod Writes
mod Tests
use rem0te.Rbac.Technician.{ComputerAccess}
use rem0te.Schedule.{Intl}
use rem0te.Rbac.Actor.{Actor}
use rem0te.Session.State.{
  Session, SessionStatus, SessionStatus-discrete, EventType, EventSource, EventInput, TimingQuality,
}
use rem0te.Session.Machine.{terminal}
use rem0te.Session.Store.{SessionRow, Db, DedupeKey, fixed}
use rem0te.Session.Events.{Options, Round, returned, stale, raised, record_event}
use rem0te.Rbac.Access.{
  Access, resolve_scope, same_business, is_business_owner, can, assert_capability,
  assert_endpoint_in_scope, can_reach_endpoint, Endpoint,
}
use rem0te.Rbac.Capability.{Capability, history_view, computers_connect}
use Prim.Native.Char.{code}
use rem0te.Prelude.{
  is_empty, ℕ, ◌+◌, ◌==◌, Bool, true, false, ◌&&◌, ◌||◌, [], ◌∷◌, if◌then◌else◌, ◌>>=◌, ◌>>◌,
  includes, Result, Option, String, none, some, not, ok, err, leb, List, str_eq, throw_if, get_or,
  ◌++◌, length, codes,
}
use rem0te.Prelude.Json.{Fields}

pub data ServiceError : Type 0 where
  nothing_named use_quick_connect forbidden not_found no_access : ServiceError
  may_not_change already_closed closed_by_another bad_event unsupported_event : ServiceError
  does_not_apply broken : ServiceError

abbrev pub allowed_or {ℓ} : {A : Type ℓ} → Access A → Result ServiceError A
allowed_or (Access.allowed a) = ok a
allowed_or Access.forbidden = err ServiceError.forbidden
allowed_or Access.not_found = err ServiceError.not_found

abbrev pub of_technician : SessionRow → String → Bool
of_technician r user = elim r.technician_id [ none ↦ false | some t ↦ str_eq t user ]

abbrev pub in_business_scope : Option String → SessionRow → Bool
in_business_scope none r = true
in_business_scope (some b) r = same_business r.customer_id (some b)

-- `sessionScope`, as a test of a row
unfoldable pub session_scope : Actor → Result ServiceError (SessionRow → Bool)
unfolding resolve_scope is_business_owner can
session_scope actor = do
  scope ← allowed_or (resolve_scope actor none)
  ok (λ r.
      in_business_scope scope r
      && (is_business_owner actor || can actor history_view || of_technician r actor.user_id))

unfoldable pub find_visible : (SessionRow → Bool) → String → List SessionRow → Option SessionRow
find_visible p id [] = none
find_visible p id (r ∷ rs) = if str_eq r.id id && p r then some r else find_visible p id rs

abbrev pub visible_or : Option SessionRow → Result ServiceError SessionRow
visible_or none = err ServiceError.not_found
visible_or (some r) = ok r

unfoldable pub load_for_mutation : Actor → String → List SessionRow → Result ServiceError SessionRow
unfolding session_scope find_visible is_business_owner
load_for_mutation actor id rows = do
  p ← session_scope actor
  r ← visible_or (find_visible p id rows)
  throw_if (not (of_technician r actor.user_id) && not (is_business_owner actor)) may_not_change
  ok r

-- ... and the check of the status that follows it
unfoldable pub open_for_mutation : Actor → String → List SessionRow → Result ServiceError SessionRow
unfolding load_for_mutation includes
open_for_mutation actor id rows = do
  r ← load_for_mutation actor id rows
  throw_if (includes SessionStatus-discrete r.session.status terminal) already_closed
  ok r

pub record CompleteSession : Type 0 where
  pub notes : Option String
  pub disposition : Option String
  pub manual_work_minutes : Option ℕ

abbrev kept {ℓ} : {A : Type ℓ} → Option A → Option A → Option A
kept none old = old
kept (some x) old = some x

unfoldable pub write_work : String → CompleteSession → List SessionRow → List SessionRow
write_work id dto [] = []
write_work id dto (r ∷ rs) =
    (if str_eq r.id id
      then record r {
        notes = kept dto.notes r.notes;
        disposition = kept dto.disposition r.disposition;
        manual_work_minutes = kept dto.manual_work_minutes r.manual_work_minutes;
      }
      else r)
    ∷ write_work id dto rs

-- What a request asks for; a report names an event.
pub data Request : Type 0 where
  completes : CompleteSession → Request
  cancels : Request
  reports : String → Fields → Request

unfoldable pub tail_ok : String → Bool
tail_ok String.[] = true
tail_ok (String.◌∷◌ c s) =
    (leb b'a' (code c) && leb (code c) b'z'
      || leb b'0' (code c) && leb (code c) b'9'
      || code c == b'_')
    && tail_ok s

-- `/^[a-z][a-z0-9_]{0,63}$/`
unfoldable pub is_event_name : String → Bool
unfolding tail_ok
is_event_name String.[] = false
is_event_name (String.◌∷◌ c s) =
    leb b'a' (code c) && leb (code c) b'z' && tail_ok s && leb (length (codes s)) 63

unfoldable pub reported_type : String → Option EventType
reported_type event =
    if str_eq event "connected"
    then some EventType.connection_confirmed
    else if str_eq event "failed"
    then some EventType.technician_failed
    else none

abbrev pub by_technician : ℕ → EventType → EventInput
by_technician now type = record {
  type = type;
  source = EventSource.technician;
  occurred_at = none;
  received_at = now;
}

abbrev pub technician_key : EventType → String
technician_key EventType.technician_completed = "technician:completed"
technician_key EventType.technician_canceled = "technician:canceled"
technician_key EventType.connection_confirmed = "technician:connection_confirmed"
technician_key _ = "technician:technician_failed"

abbrev pub technician_options : Actor → EventType → Fields → Options
technician_options actor type metadata = record {
  dedupe_key = some (fixed (technician_key type));
  metadata = metadata;
  actor_id = some actor.user_id;
  require_applied = true;
}

abbrev pub is_applied : Round → Bool
is_applied (returned o) = o.result.applied
is_applied stale = false
is_applied raised = false

-- the result of `record`, or the error of a report or a closing that did not apply
abbrev pub applied_or : ServiceError → Round → Result ServiceError (Unit {0})
applied_or e r = if is_applied r then ok tt else err e

abbrev pub Handled : Type 0
Handled = Result ServiceError (Unit {0}) × Db

-- the rest of a request, once its session was found open
abbrev pub when_open : Result ServiceError SessionRow → Handled → Db → Handled
when_open (err e) go db = (err e, db)
when_open (ok s) go db = go

module _ (now : ℕ) (others : ℕ → Db → Db) (actor : Actor) (id : String) where
  unfoldable pub transition : EventType → Fields → Db → Round × Db
  unfolding record_event
  transition type metadata db =
      record_event (by_technician now type) (technician_options actor type metadata) others id db

  unfoldable pub complete : CompleteSession → Db → Handled
  unfolding open_for_mutation transition write_work
  complete dto db =
      let (r, db') = transition EventType.technician_completed Fields.end db in
      when_open (open_for_mutation actor id db.sessions)
        (if is_applied r
          then (ok tt, record db' { sessions = write_work id dto db'.sessions })
          else (err closed_by_another, db'))
        db

  unfoldable pub cancel : Db → Handled
  unfolding open_for_mutation transition
  cancel db =
      let (r, db') = transition EventType.technician_canceled Fields.end db in
      when_open (open_for_mutation actor id db.sessions) (applied_or closed_by_another r, db') db

  unfoldable pub report : Option EventType → Fields → Db → Handled
  unfolding transition
  report none metadata db = (err unsupported_event, db)
  report (some type) metadata db =
      let (r, db') = transition type metadata db in (applied_or does_not_apply r, db')

  -- `metadata` is the note that is kept of what the browser sent.
  unfoldable pub add_event : String → Fields → Db → Handled
  unfolding open_for_mutation report is_event_name reported_type
  add_event event metadata db =
      if not (is_event_name event)
      then (err bad_event, db)
      else when_open (open_for_mutation actor id db.sessions)
          (report (reported_type event) metadata db) db

  unfoldable pub handle : Request → Db → Handled
  unfolding complete cancel add_event
  handle (completes dto) db = complete dto db
  handle cancels db = cancel db
  handle (reports event metadata) db = add_event event metadata db

-- The row of a new session; `id` is its, and the endpoint's tenant `tenant`.
abbrev pub new_session : ℕ → String → String → Actor → Endpoint → SessionRow
new_session now id tenant actor e = record {
  id = id;
  tenant_id = tenant;
  customer_id = e.customer_id;
  endpoint_id = some e.id;
  is_ad_hoc = false;
  telemetry_token_hash = none;
  session = record {
    status = SessionStatus.pending;
    created_at = now;
    launch_requested_at = none;
    launcher_ack_at = none;
    client_opened_at = none;
    connection_confirmed_at = none;
    ended_at = none;
    status_source = none;
    last_signal_at = none;
    timing_quality = TimingQuality.unknown;
    status_changed_at = none;
    started_at = none;
    completed_at = none;
    end_reason = none;
    end_inferred = false;
    duration = none;
  };
  technician_id = some actor.user_id;
  notes = none;
  disposition = none;
  manual_work_minutes = none;
}

abbrev endpoint_row : Option (Endpoint × String) → Option Endpoint
endpoint_row none = none
endpoint_row (some (e, tenant)) = some e

abbrev tenant_of : Option (Endpoint × String) → String
tenant_of none = ""
tenant_of (some (e, tenant)) = tenant

-- `create`, of the computer `endpoint` and the ad-hoc id `ad_hoc` that the request names;
-- `endpoints` looks a computer up with its tenant, `access` is the row of the caller's grant.
unfoldable pub create :
    Intl
    → (String → Option (Endpoint × String))
    → (String → Option ComputerAccess)
    → ℕ
    → String
    → Actor
    → Option String
    → Option String
    → Db
    → Result ServiceError Db
unfolding assert_capability assert_endpoint_in_scope can_reach_endpoint
create intl endpoints access now id actor endpoint ad_hoc db = do
  throw_if (is_empty (get_or endpoint "") && is_empty (get_or ad_hoc "")) nothing_named
  throw_if (not (is_empty (get_or ad_hoc ""))) use_quick_connect
  allowed_or (assert_capability actor (computers_connect ∷ []))
  e ← allowed_or (assert_endpoint_in_scope actor (endpoint_row (endpoints (get_or endpoint ""))))
  throw_if (not (can_reach_endpoint intl actor e (access e.id) now)) no_access
  ok (record db {
    sessions =
        db.sessions ++ new_session now id (tenant_of (endpoints (get_or endpoint ""))) actor e ∷ [];
  })
