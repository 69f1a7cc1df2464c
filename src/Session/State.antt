-- ===== src/Session/State.antt =====
-- The data of apps/api/src/sessions/session-state.ts: statuses, events, sources, the columns of a
-- session row that a transition reads or writes, and a patch of them.
-- An instant is its number of milliseconds since the epoch.
use rem0te.Prelude.{ℕ, Bool, Option, some, List, [], ◌∷◌}

pub data SessionStatus : Type 0 where
  pending launch_requested launcher_acknowledged client_opened session_started : SessionStatus
  session_completed failed canceled status_unknown : SessionStatus

pub data EventType : Type 0 where
  launch_requested launcher_acknowledged client_opened client_launch_failed : EventType
  connection_confirmed disconnected : EventType
  technician_completed technician_canceled technician_failed : EventType
  timeout_unknown timeout_ended : EventType

pub data EventSource : Type 0 where
  server launcher connect_script endpoint_agent technician timeout : EventSource

unfoldable pub EventSource-discrete : Discrete EventSource
EventSource-discrete = hlevel

unfoldable pub SessionStatus-discrete : Discrete SessionStatus
SessionStatus-discrete = hlevel

pub data TimingQuality : Type 0 where
  measured reported inferred unknown legacy : TimingQuality

pub TimingQuality-discrete : Discrete TimingQuality
TimingQuality-discrete = hlevel

-- The strings that the code writes to `endReason`.
pub data EndReason : Type 0 where
  failed_after_connect endpoint_reported_disconnect technician_completed : EndReason
  technician_completed_unconfirmed client_launch_failed technician_failed canceled : EndReason
  no_signal_timeout no_end_signal_timeout : EndReason

-- A `Date`: a valid one, or one whose time is NaN.
pub data Stamp : Type 0 where
  invalid : Stamp
  valid : ℕ → Stamp

-- The row: the fields of `SessionSnapshot`, and the other columns that a patch writes.
pub record Session : Type 0 where
  pub status : SessionStatus
  pub created_at : ℕ
  pub launch_requested_at : Option ℕ
  pub launcher_ack_at : Option ℕ
  pub client_opened_at : Option ℕ
  pub connection_confirmed_at : Option ℕ
  pub ended_at : Option ℕ
  pub status_source : Option EventSource
  pub last_signal_at : Option ℕ
  pub timing_quality : TimingQuality
  pub status_changed_at : Option ℕ
  pub started_at : Option ℕ
  pub completed_at : Option ℕ
  pub end_reason : Option EndReason
  pub end_inferred : Bool
  pub duration : Option ℕ

pub record EventInput : Type 0 where
  pub type : EventType
  pub source : EventSource
  pub occurred_at : Option Stamp
  pub received_at : ℕ

-- One entry of a patch.
pub data Change : Type 0 where
  set_status : SessionStatus → Change
  set_status_source : EventSource → Change
  set_status_changed_at : ℕ → Change
  set_last_signal_at : Option ℕ → Change
  set_launch_requested_at : ℕ → Change
  set_launcher_ack_at : ℕ → Change
  set_client_opened_at : ℕ → Change
  set_connection_confirmed_at : ℕ → Change
  set_started_at : ℕ → Change
  set_ended_at : Option ℕ → Change
  set_completed_at : ℕ → Change
  set_end_reason : EndReason → Change
  set_end_inferred : Bool → Change
  set_duration : Option ℕ → Change
  set_timing_quality : TimingQuality → Change

pub data Reason : Type 0 where
  session_closed not_a_forward_step source_not_allowed not_confirmed already_confirmed : Reason

pub record TransitionResult : Type 0 where
  pub applied : Bool
  pub reason : Option Reason
  pub patch : List Change

-- A column update, as the database makes it.
unfoldable pub write : Change → Session → Session
write (set_status x) s = record s { status = x }
write (set_status_source x) s = record s { status_source = some x }
write (set_status_changed_at x) s = record s { status_changed_at = some x }
write (set_last_signal_at x) s = record s { last_signal_at = x }
write (set_launch_requested_at x) s = record s { launch_requested_at = some x }
write (set_launcher_ack_at x) s = record s { launcher_ack_at = some x }
write (set_client_opened_at x) s = record s { client_opened_at = some x }
write (set_connection_confirmed_at x) s = record s { connection_confirmed_at = some x }
write (set_started_at x) s = record s { started_at = some x }
write (set_ended_at x) s = record s { ended_at = x }
write (set_completed_at x) s = record s { completed_at = some x }
write (set_end_reason x) s = record s { end_reason = some x }
write (set_end_inferred x) s = record s { end_inferred = x }
write (set_duration x) s = record s { duration = x }
write (set_timing_quality x) s = record s { timing_quality = x }

-- All columns of a patch, in the order of its entries: a later entry for a column wins.
unfoldable pub apply_patch : List Change → Session → Session
unfolding write
apply_patch [] s = s
apply_patch (c ∷ cs) s = apply_patch cs (write c s)
