-- ===== src/Session/Tests.antt =====
-- Runs of the session machine, of `record` and of a heartbeat at concrete inputs.
use rem0te.Session.Sweep.{expire_stale_sessions, close_abandoned_sessions, time_out}
use rem0te.Session.Sweep.Closes.{IsUnknown, IsInferred}
use rem0te.Session.Sweep.Silence.{
  IsStale, IsSilent, expire_stale_sessions-closes, close_abandoned_sessions-closes,
}
use rem0te.Session.Events.Alone.{alone, answer, row_after, record_event-after}
use rem0te.Session.Reconcile.Attribution.{SameButSignal, reconcile-ambiguous}
use rem0te.Session.Events.Rounds.{Keeps, record_rounds-Keeps, attempt-Keeps}
use rem0te.Session.Machine.Sound.{IsSound, run-IsSound}
use rem0te.Session.Reconcile.{open_on, reconcile_endpoint_signal}
use rem0te.Session.Machine.Authority.{AgentSent, measured_by_agent}
use rem0te.Session.Machine.Order.{run}
use rem0te.Session.Store.{find_row, SessionRow, Db, fixed, is_duplicate}
use rem0te.Session.Events.{Options, event_row, attempt, record_rounds, record_event, returned}
use rem0te.Prelude.{
  ℕ, ◌≡◌, refl, false, none, some, List, [], ◌∷◌, String, arith, Any, Forall₂, ◌+◌, includes, ◌⊎◌,
}
use rem0te.Prelude.Json.{end}
use rem0te.Session.State.{
  Session, SessionStatus, EventType, EventSource, EventInput, TimingQuality, Stamp,
  SessionStatus-discrete,
}
use rem0te.Session.Machine.{apply_session_event, after}

abbrev fresh : Session
fresh = record {
  status = SessionStatus.pending;
  created_at = 1000;
  launch_requested_at = none;
  launcher_ack_at = none;
  client_opened_at = none;
  connection_confirmed_at = none;
  ended_at = none;
  status_source = none;
  last_signal_at = none;
  timing_quality = TimingQuality.unknown;
  status_changed_at = none;
  started_at = none;
  completed_at = none;
  end_reason = none;
  end_inferred = false;
  duration = none;
}

abbrev event : EventType → EventSource → ℕ → EventInput
event t s at = record {
  type = t;
  source = s;
  occurred_at = some (Stamp.valid at);
  received_at = at + 500;
}

abbrev confirm : EventInput
confirm = event EventType.connection_confirmed EventSource.endpoint_agent 5000

abbrev story : List EventInput
story =
    event EventType.launch_requested EventSource.server 2000
    ∷ confirm
    ∷ event EventType.disconnected EventSource.endpoint_agent 65400
    ∷ []

fresh-IsSound : IsSound fresh
unfolding includes SessionStatus-discrete
fresh-IsSound = ground arith

run-IsSound_example : IsSound (run fresh story)
run-IsSound_example = run-IsSound fresh story fresh-IsSound (omega arith)

story_duration : (run fresh story).duration ≡ some 60
unfolding run after
story_duration = refl

measured_by_agent_example :
    Any (AgentSent EventType.connection_confirmed) story
    × Any (AgentSent EventType.disconnected) story
unfolding run after
measured_by_agent_example = measured_by_agent fresh story (λ e. cc) (λ e. cc) refl

abbrev row : String → SessionRow
row id = record {
  id = id;
  tenant_id = "t1";
  customer_id = some "acme";
  endpoint_id = some "pc";
  is_ad_hoc = false;
  telemetry_token_hash = none;
  session = fresh;
  technician_id = some "tess";
  notes = none;
  disposition = none;
  manual_work_minutes = none;
}

abbrev tables : Db
tables = record { sessions = row "s1" ∷ row "s2" ∷ []; events = []; audit = [] }

abbrev options : Options
options = record {
  dedupe_key = some (fixed "agent:confirm");
  metadata = end;
  actor_id = none;
  require_applied = false;
}

record_event-after_example :
    let (out, db') = record_event confirm options alone "s1" tables in
    (out ≡ returned (answer (row "s1") confirm))
    × (find_row "s1" db'.sessions ≡ some (row_after (row "s1") confirm))
    × (db'.events ≡ event_row confirm options (row "s1") (apply_session_event fresh confirm) ∷ [])
unfolding find_row is_duplicate
record_event-after_example =
    record_event-after confirm options "s1" tables (row "s1") refl refl refl

-- Another request that confirms the session first, in each round.
other_request : ℕ → Db → Db
other_request n db = (attempt confirm options "s1" db db).1

record_rounds-Keeps_example :
    Keeps tables (record_rounds confirm options 3 other_request "s1" tables).1
unfolding other_request
record_rounds-Keeps_example =
    record_rounds-Keeps confirm options 3 other_request "s1" tables
      (λ k d. attempt-Keeps confirm options "s1" d d)

reconcile-ambiguous_example :
    Forall₂ SameButSignal tables.sessions
      (reconcile_endpoint_signal 6000 (λ n db. db) "pc" 1 5000 tables).sessions
unfolding open_on
reconcile-ambiguous_example =
    reconcile-ambiguous 6000 (λ n db. db) "pc" 1 5000 tables (omega arith) (omega arith)

expire_stale_sessions-closes_example :
    let rows = (expire_stale_sessions 9000000 (λ i. alone) 30 tables).0.sessions in
    (find_row "s1" rows ≡ some (row "s1"))
    ⊎ (Any (λ x. (x.id ≡ "s1") × IsStale 9000000 30 x) tables.sessions
        × ((x : SessionRow) × (find_row "s1" rows ≡ some x) × IsUnknown x.session))
unfolding find_row
expire_stale_sessions-closes_example =
    expire_stale_sessions-closes 9000000 30 tables "s1" (row "s1") refl

-- A session that was confirmed, with nothing heard since.
abbrev silent_row : SessionRow
silent_row = record (row "s1") {
  session = record fresh {
    status = SessionStatus.session_started;
    connection_confirmed_at = some 2000;
  };
}

abbrev silent_tables : Db
silent_tables = record tables { sessions = silent_row ∷ [] }

close_abandoned_sessions-closes_example :
    let rows = (close_abandoned_sessions 90000000 (λ i. alone) 12 silent_tables).0.sessions in
    (find_row "s1" rows ≡ some silent_row)
    ⊎ (Any (λ x. (x.id ≡ "s1") × IsSilent 90000000 12 x.session) silent_tables.sessions
        × ((x : SessionRow) × (find_row "s1" rows ≡ some x) × IsInferred x.session))
unfolding find_row
close_abandoned_sessions-closes_example =
    close_abandoned_sessions-closes 90000000 12 silent_tables "s1" silent_row refl

-- The sweep does close it.
silent_closed : (close_abandoned_sessions 90000000 (λ i. alone) 12 silent_tables).1 ≡ some 1
unfolding close_abandoned_sessions time_out
silent_closed = refl
