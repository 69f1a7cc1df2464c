-- ===== src/Session/Service/Tests.antt =====
-- A technician who cancels a session, and one who may not.
use rem0te.Rbac.Actor.{Actor}
use rem0te.Session.State.{
  SessionStatus, TimingQuality, SessionStatus-discrete, EventSource-discrete,
}
use rem0te.Session.Machine.{apply_session_event, dispatch, event_at}
use rem0te.Session.Store.{SessionRow, Db, find_row, is_duplicate, update_rows}
use rem0te.Session.Events.{
  record_event, record_rounds, attempt, decide, commit, next_round, status_of,
}
use rem0te.Session.Events.Alone.{alone}
use rem0te.Session.Service.{
  Request, handle, cancel, transition, open_for_mutation, load_for_mutation, session_scope,
  find_visible, ServiceError,
}
use rem0te.Session.Service.Rights.{MayChange}
use rem0te.Session.Service.Writes.{handle-MayChange, handle-refused}
use rem0te.Rbac.Access.{resolve_scope, requested_id, is_business_owner, can}
use rem0te.Rbac.Capability.{RoleType, Capability-discrete}
use rem0te.Prelude.{refl, false, some, none, [], ◌∷◌, ◌≡◌, includes, String, trim, any, ok, err}

abbrev row : SessionRow
row = record {
  id = "s1";
  tenant_id = "t1";
  customer_id = some "acme";
  endpoint_id = some "pc";
  is_ad_hoc = false;
  telemetry_token_hash = none;
  session = record {
    status = SessionStatus.pending;
    created_at = 1000;
    launch_requested_at = none;
    launcher_ack_at = none;
    client_opened_at = none;
    connection_confirmed_at = none;
    ended_at = none;
    status_source = none;
    last_signal_at = none;
    timing_quality = TimingQuality.unknown;
    status_changed_at = none;
    started_at = none;
    completed_at = none;
    end_reason = none;
    end_inferred = false;
    duration = none;
  };
  technician_id = some "tess";
  notes = none;
  disposition = none;
  manual_work_minutes = none;
}

abbrev tables : Db
tables = record { sessions = row ∷ []; events = []; audit = [] }

abbrev user : String → Actor
user id = record {
  user_id = id;
  business_id = some "acme";
  is_platform_admin = false;
  role_type = some RoleType.business_user;
  capabilities = [];
  technician = none;
}

canceled : (handle 2000 alone (user "tess") "s1" Request.cancels tables).0 ≡ ok tt
unfolding handle cancel transition record_event record_rounds attempt decide commit next_round
    open_for_mutation load_for_mutation session_scope find_visible resolve_scope requested_id
    is_business_owner can includes Capability-discrete SessionStatus-discrete EventSource-discrete
    find_row is_duplicate update_rows apply_session_event dispatch event_at status_of any trim
canceled = refl

handle-MayChange_example : MayChange (user "tess") "s1" tables.sessions
handle-MayChange_example =
    handle-MayChange 2000 alone (user "tess") "s1" Request.cancels tables canceled

refused :
    (handle 2000 alone (user "otto") "s1" Request.cancels tables).0 ≡ err ServiceError.not_found
unfolding handle cancel open_for_mutation load_for_mutation session_scope find_visible resolve_scope
    requested_id is_business_owner can includes Capability-discrete trim
refused = refl

handle-refused_example : (handle 2000 alone (user "otto") "s1" Request.cancels tables).1 ≡ tables
handle-refused_example =
    handle-refused 2000 (user "otto") "s1" Request.cancels tables ServiceError.not_found refused
