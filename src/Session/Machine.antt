-- ===== src/Session/Machine.antt =====
-- `applySessionEvent` and its helpers, of apps/api/src/sessions/session-state.ts.
pub mod Order
pub mod Authority
pub mod Sound
pub mod Replay
use rem0te.Prelude.{
  ℕ, ◌+◌, ◌-◌, ◌/◌, Bool, true, false, not, ◌&&◌, Option, none, some, List, [], ◌∷◌, ◌++◌, ltb, leb,
  if◌then◌else◌, get_or, is_some, includes, same,
}
use rem0te.Session.State
use rem0te.Session.State.{
  SessionStatus, EventType, EventSource, EventSource-discrete, SessionStatus-discrete,
  TimingQuality, EndReason, Stamp, Session, EventInput, Change, Reason, TransitionResult,
  set_status, set_status_source, set_status_changed_at, set_last_signal_at, set_launch_requested_at,
  set_launcher_ack_at, set_client_opened_at, set_connection_confirmed_at, set_started_at,
  set_ended_at, set_completed_at, set_end_reason, set_end_inferred, set_duration,
  set_timing_quality,
}

abbrev pub allowed_sources : EventType → List EventSource
allowed_sources EventType.launch_requested = EventSource.server ∷ []
allowed_sources EventType.launcher_acknowledged =
    EventSource.server ∷ EventSource.launcher ∷ EventSource.connect_script ∷ []
allowed_sources EventType.client_opened = EventSource.launcher ∷ EventSource.connect_script ∷ []
allowed_sources EventType.client_launch_failed =
    EventSource.launcher ∷ EventSource.connect_script ∷ []
allowed_sources EventType.connection_confirmed =
    EventSource.endpoint_agent ∷ EventSource.technician ∷ []
allowed_sources EventType.disconnected = EventSource.endpoint_agent ∷ []
allowed_sources EventType.technician_completed = EventSource.technician ∷ []
allowed_sources EventType.technician_canceled = EventSource.technician ∷ []
allowed_sources EventType.technician_failed = EventSource.technician ∷ []
allowed_sources EventType.timeout_unknown = EventSource.timeout ∷ []
allowed_sources EventType.timeout_ended = EventSource.timeout ∷ []

abbrev pub terminal : List SessionStatus
terminal =
    SessionStatus.session_completed ∷ SessionStatus.failed ∷ SessionStatus.canceled
    ∷ SessionStatus.status_unknown ∷ []

abbrev pub rank : SessionStatus → ℕ
rank SessionStatus.pending = 0
rank SessionStatus.launch_requested = 1
rank SessionStatus.launcher_acknowledged = 2
rank SessionStatus.client_opened = 3
rank SessionStatus.session_started = 4
rank _ = 9

abbrev pub open_statuses : List SessionStatus
open_statuses =
    SessionStatus.pending ∷ SessionStatus.launch_requested ∷ SessionStatus.launcher_acknowledged
    ∷ SessionStatus.client_opened ∷ SessionStatus.session_started ∷ []

unfoldable pub clamp : Option Stamp → ℕ → ℕ → ℕ
clamp at lo hi =
    let t : ℕ = elim at [
      | none ↦ hi
      | some s ↦ elim s [ Stamp.invalid ↦ hi | Stamp.valid x ↦ x ]
    ] in
    if ltb t lo then lo else if ltb hi t then hi else t

unfoldable pub backfill : Session → EventType → ℕ → List Change
backfill s EventType.launch_requested at =
    if is_some s.launch_requested_at then [] else set_launch_requested_at at ∷ []
backfill s EventType.launcher_acknowledged at =
    if is_some s.launcher_ack_at then [] else set_launcher_ack_at at ∷ []
backfill s EventType.client_opened at =
    if is_some s.client_opened_at then [] else set_client_opened_at at ∷ []
backfill s _ at = []

unfoldable pub end_at : Session → ℕ → ℕ
end_at s at = elim s.connection_confirmed_at [
  | none ↦ at
  | some start ↦ if ltb at start then start else at
]

abbrev pub is_measured : TimingQuality → Bool
is_measured TimingQuality.measured = true
is_measured _ = false

abbrev pub is_agent : Option EventSource → Bool
is_agent (some EventSource.endpoint_agent) = true
is_agent _ = false

-- `Math.max(0, Math.round(ms / 1000))` of a difference of instants
abbrev pub seconds_between : ℕ → ℕ → ℕ
seconds_between start stop = (stop - start + 500) / 1000

unfoldable pub end_duration : Session → Bool → ℕ → Option ℕ
end_duration s measured at = elim s.connection_confirmed_at [
  | none ↦ none
  | some start ↦ if measured then some (seconds_between start at) else none
]

unfoldable pub end_session : Session → EventInput → ℕ → EndReason → TimingQuality → TransitionResult
unfolding end_at end_duration
end_session s ev at reason quality =
    let stop = end_at s at in
    let measured =
      is_measured quality && is_agent s.status_source && is_some s.connection_confirmed_at in
    record {
      applied = true;
      reason = none;
      patch =
          set_status SessionStatus.session_completed
          ∷ set_status_source ev.source
          ∷ set_status_changed_at ev.received_at
          ∷ set_last_signal_at (some stop)
          ∷ set_ended_at (some stop)
          ∷ set_completed_at stop
          ∷ set_end_reason reason
          ∷ set_end_inferred false
          ∷ set_duration (end_duration s measured stop)
          ∷ set_timing_quality (
              if measured
              then TimingQuality.measured
              else if is_measured quality
              then TimingQuality.reported
              else quality)
          ∷ [];
    }

abbrev refuse : Reason → List Change → TransitionResult
refuse why patch = record { applied = false; reason = some why; patch = patch }

abbrev accept : List Change → TransitionResult
accept patch = record { applied = true; reason = none; patch = patch }

-- `signal`: the later of the last signal and `at`
unfoldable pub latest_signal : Session → ℕ → Option ℕ
latest_signal s at = elim s.last_signal_at [
  | none ↦ some at
  | some last ↦ if ltb last at then some at else some last
]

-- The columns that every applied transition but a timeout writes first.
abbrev moved : Session → EventInput → ℕ → SessionStatus → List Change
moved s ev at target =
    set_status target
    ∷ set_status_source ev.source
    ∷ set_status_changed_at ev.received_at
    ∷ set_last_signal_at (latest_signal s at)
    ∷ []

unfoldable pub forward : Session → EventInput → ℕ → SessionStatus → List Change → TransitionResult
unfolding backfill latest_signal
forward s ev at target extra =
    if leb (rank target) (rank s.status)
    then refuse Reason.not_a_forward_step (backfill s ev.type at)
    else accept (moved s ev at target ++ extra)

-- An end with no duration, as a failure, a cancellation and an unconfirmed completion write it.
abbrev closing : ℕ → EndReason → TimingQuality → List Change
closing at reason quality =
    set_ended_at (some at)
    ∷ set_completed_at at
    ∷ set_end_reason reason
    ∷ set_end_inferred false
    ∷ set_duration none
    ∷ set_timing_quality quality
    ∷ []

abbrev pub is_confirmed : SessionStatus → Bool
is_confirmed SessionStatus.session_started = true
is_confirmed _ = false

abbrev is_technician : EventSource → Bool
is_technician EventSource.technician = true
is_technician _ = false

abbrev is_endpoint_agent : EventSource → Bool
is_endpoint_agent EventSource.endpoint_agent = true
is_endpoint_agent _ = false

-- the two cases that share one body in the `switch`
unfoldable pub fail_session : Session → EventInput → ℕ → EndReason → TransitionResult
unfolding end_session latest_signal
fail_session s ev at reason =
    if is_confirmed s.status
    then end_session s ev at EndReason.failed_after_connect
        (if is_technician ev.source then TimingQuality.reported else TimingQuality.unknown)
    else accept (moved s ev at SessionStatus.failed ++ closing at reason TimingQuality.unknown)

-- The `switch` on `ev.type`.
unfoldable pub dispatch : EventType → Session → EventInput → ℕ → TransitionResult
unfolding forward end_session fail_session latest_signal
dispatch EventType.launch_requested s ev at =
    forward s ev at SessionStatus.launch_requested
      (set_launch_requested_at (get_or s.launch_requested_at at) ∷ [])
dispatch EventType.launcher_acknowledged s ev at =
    forward s ev at SessionStatus.launcher_acknowledged
      (set_launcher_ack_at (get_or s.launcher_ack_at at) ∷ [])
dispatch EventType.client_opened s ev at =
    forward s ev at SessionStatus.client_opened
      (set_client_opened_at (get_or s.client_opened_at at) ∷ [])
dispatch EventType.connection_confirmed s ev at =
    if is_confirmed s.status
    then refuse Reason.already_confirmed (set_last_signal_at (latest_signal s at) ∷ [])
    else forward s ev at SessionStatus.session_started (
        set_connection_confirmed_at at
        ∷ set_started_at at
        ∷ set_timing_quality
            (if is_endpoint_agent ev.source then TimingQuality.unknown else TimingQuality.reported)
        ∷ [])
dispatch EventType.client_launch_failed s ev at =
    fail_session s ev at EndReason.client_launch_failed
dispatch EventType.technician_failed s ev at = fail_session s ev at EndReason.technician_failed
dispatch EventType.disconnected s ev at =
    if is_confirmed s.status
    then end_session s ev at EndReason.endpoint_reported_disconnect TimingQuality.measured
    else refuse Reason.not_confirmed []
dispatch EventType.technician_completed s ev at =
    if is_confirmed s.status
    then end_session s ev at EndReason.technician_completed TimingQuality.reported
    else accept (
        set_status SessionStatus.session_completed
        ∷ set_status_source EventSource.technician
        ∷ set_status_changed_at ev.received_at
        ∷ set_last_signal_at (latest_signal s at)
        ∷ closing at EndReason.technician_completed_unconfirmed TimingQuality.unknown)
dispatch EventType.technician_canceled s ev at = accept (
    set_status SessionStatus.canceled
    ∷ set_status_source EventSource.technician
    ∷ set_status_changed_at ev.received_at
    ∷ set_last_signal_at (latest_signal s at)
    ∷ closing at EndReason.canceled
        (if is_confirmed s.status then TimingQuality.reported else TimingQuality.unknown))
dispatch EventType.timeout_unknown s ev at =
    if is_confirmed s.status
    then refuse Reason.already_confirmed []
    else accept (
        set_status SessionStatus.status_unknown
        ∷ set_status_source EventSource.timeout
        ∷ set_status_changed_at ev.received_at
        ∷ set_ended_at none
        ∷ set_completed_at ev.received_at
        ∷ set_end_reason EndReason.no_signal_timeout
        ∷ set_end_inferred true
        ∷ set_duration none
        ∷ set_timing_quality TimingQuality.unknown
        ∷ [])
dispatch EventType.timeout_ended s ev at =
    if is_confirmed s.status
    then accept (
        set_status SessionStatus.session_completed
        ∷ set_status_source EventSource.timeout
        ∷ set_status_changed_at ev.received_at
        ∷ set_ended_at
            (elim s.last_signal_at [ none ↦ s.connection_confirmed_at | some last ↦ some last ])
        ∷ set_completed_at ev.received_at
        ∷ set_end_reason EndReason.no_end_signal_timeout
        ∷ set_end_inferred true
        ∷ set_duration none
        ∷ set_timing_quality TimingQuality.inferred
        ∷ [])
    else refuse Reason.not_confirmed []

unfoldable pub event_at : Session → EventInput → ℕ
unfolding clamp
event_at s ev = clamp ev.occurred_at s.created_at ev.received_at

unfoldable pub apply_session_event : Session → EventInput → TransitionResult
unfolding dispatch event_at includes EventSource-discrete SessionStatus-discrete
apply_session_event s ev =
    if includes EventSource-discrete ev.source (allowed_sources ev.type)
    then (if includes SessionStatus-discrete s.status terminal
        then refuse Reason.session_closed []
        else dispatch ev.type s ev (event_at s ev))
    else refuse Reason.source_not_allowed []

-- The row after the patch of an event.
unfoldable pub after : Session → EventInput → Session
unfolding apply_session_event State.apply_patch
after s ev = State.apply_patch (apply_session_event s ev).patch s
