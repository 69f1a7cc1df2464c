-- ===== src/Session/Sweep.antt =====
-- The sweeps of apps/api/src/sessions/sessions.service.ts: what nobody reports on any more is closed
-- by a timeout event. `others id` is what other requests do meanwhile.
pub mod Stale
pub mod Closes
pub mod Silence
use rem0te.Session.State.{SessionStatus, SessionStatus-discrete, EventType, EventSource, EventInput}
use rem0te.Session.Store.{SessionRow, Db, fixed}
use rem0te.Session.Events.{Options, Round, raised, record_event, no_options}
use rem0te.Session.Service.{is_applied}
use rem0te.Prelude.{
  same, ℕ, zero, suc, ◌+◌, ◌*◌, Bool, true, false, ◌&&◌, ◌||◌, [], ◌∷◌, if◌then◌else◌, none, String,
  ltb, List, Option, not, some, is_some, ◌++◌,
}

abbrev pub is_before_opening : SessionStatus → Bool
is_before_opening SessionStatus.pending = true
is_before_opening SessionStatus.launch_requested = true
is_before_opening SessionStatus.launcher_acknowledged = true
is_before_opening _ = false

abbrev pub is_status : SessionStatus → SessionRow → Bool
is_status s r = same SessionStatus-discrete r.session.status s

-- launched or acknowledged, and nothing for `minutes`
unfoldable pub is_early_stale : ℕ → ℕ → SessionRow → Bool
is_early_stale now minutes r =
    not r.is_ad_hoc
    && is_before_opening r.session.status
    && ltb (r.session.created_at + minutes * 60000) now

-- client opened, and never confirmed for twelve hours
unfoldable pub is_opened_stale : ℕ → SessionRow → Bool
unfolding SessionStatus-discrete
is_opened_stale now r =
    is_status SessionStatus.client_opened r && ltb (r.session.created_at + 12 * 3600000) now

abbrev older : ℕ → ℕ → Option ℕ → Bool
older now ms none = false
older now ms (some t) = ltb (t + ms) now

-- `statusSource: 'endpoint_agent'` and its `NOT`: an absent source passes neither.
abbrev from_agent : Option EventSource → Bool
from_agent (some EventSource.endpoint_agent) = true
from_agent _ = false

abbrev not_from_agent : Option EventSource → Bool
not_from_agent none = false
not_from_agent (some EventSource.endpoint_agent) = false
not_from_agent (some _) = true

unfoldable pub is_abandoned : ℕ → ℕ → SessionRow → Bool
unfolding SessionStatus-discrete
is_abandoned now hours r =
    is_status SessionStatus.session_started r
    && (from_agent r.session.status_source && older now (60 * 60000) r.session.last_signal_at
        || not_from_agent r.session.status_source
          && older now (hours * 3600000) r.session.last_signal_at
        || not (is_some r.session.last_signal_at)
          && older now (hours * 3600000) r.session.connection_confirmed_at)

-- the ids of the first `n` rows that a test selects
unfoldable pub first_ids : ℕ → (SessionRow → Bool) → List SessionRow → List String
first_ids zero p rs = []
first_ids (suc n) p [] = []
first_ids (suc n) p (r ∷ rs) = if p r then r.id ∷ first_ids n p rs else first_ids (suc n) p rs

abbrev pub timed_out : ℕ → EventType → EventInput
timed_out now type = record {
  type = type;
  source = EventSource.timeout;
  occurred_at = none;
  received_at = now;
}

abbrev pub timeout_options : String → Options
timeout_options key = record no_options { dedupe_key = some (fixed key) }

abbrev count_one : Bool → Option ℕ → Option ℕ
count_one true (some n) = some (n + 1)
count_one _ n = n

-- After one event the sweep goes on, unless the event raised: then the sweep ends with the error.
unfoldable pub go_on : Round → Db × Option ℕ → Db → Db × Option ℕ
go_on raised rest db = (db, none)
go_on r (done, n) db = (done, count_one (is_applied r) n)

module _ (now : ℕ) (others : String → ℕ → Db → Db) where
  -- one event for each id; the tables and the number of those that applied, if none raised
  unfoldable pub time_out : EventType → String → List String → Db → Db × Option ℕ
  unfolding record_event go_on
  time_out type key [] db = (db, some 0)
  time_out type key (id ∷ ids) db =
      let (r, db') = record_event (timed_out now type) (timeout_options key) (others id) id db in
      go_on r (time_out type key ids db') db'

  unfoldable pub expire_stale_sessions : ℕ → Db → Db × Option ℕ
  unfolding time_out first_ids is_early_stale is_opened_stale
  expire_stale_sessions minutes db =
      time_out EventType.timeout_unknown "timeout:unknown"
        (first_ids 500 (is_early_stale now minutes) db.sessions
          ++ first_ids 500 (is_opened_stale now) db.sessions)
        db

  unfoldable pub close_abandoned_sessions : ℕ → Db → Db × Option ℕ
  unfolding time_out first_ids is_abandoned
  close_abandoned_sessions hours db =
      time_out EventType.timeout_ended "timeout:ended"
        (first_ids 500 (is_abandoned now hours) db.sessions) db
