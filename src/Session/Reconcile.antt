-- ===== src/Session/Reconcile.antt =====
-- `reconcileEndpointSignal` of apps/api/src/sessions/session-events.service.ts.
pub mod Attribution
use rem0te.Prelude.{
  ℕ, zero, suc, ◌+◌, ◌-◌, ◌*◌, ◌/◌, Bool, true, false, ◌&&◌, not, Option, none, some, List, [], ◌∷◌,
  String, str_eq, ltb, leb, same, includes, if◌then◌else◌, get_or, length,
}
use rem0te.Prelude.Json.{Fields, end, field, string, number}
use rem0te.Session.State.{
  Session, SessionStatus, SessionStatus-discrete, EventType, EventSource, Stamp, set_last_signal_at,
}
use rem0te.Session.Machine.{open_statuses}
use rem0te.Session.Store.{
  SessionRow, EventRow, Db, fixed, ambiguous_in, connection_observed_ambiguous, is_duplicate,
  update_rows,
}
use rem0te.Session.Events.{Options, no_options, record_event}

-- `where: { endpointId, isAdHoc: false, status: { in: OPEN_STATUSES } }`
abbrev is_open_on : String → SessionRow → Bool
is_open_on endpoint r =
    elim r.endpoint_id [ none ↦ false | some e ↦ str_eq e endpoint ]
    && not r.is_ad_hoc
    && includes SessionStatus-discrete r.session.status open_statuses

unfoldable pub keep : (SessionRow → Bool) → List SessionRow → List SessionRow
keep p [] = []
keep p (r ∷ rs) = if p r then r ∷ keep p rs else keep p rs

-- `orderBy: { createdAt: 'desc' }`
insert_newest : SessionRow → List SessionRow → List SessionRow
insert_newest r [] = r ∷ []
insert_newest r (x ∷ xs) =
    if leb x.session.created_at r.session.created_at then r ∷ x ∷ xs else x ∷ insert_newest r xs

newest_first : List SessionRow → List SessionRow
newest_first [] = []
newest_first (r ∷ rs) = insert_newest r (newest_first rs)

take : ℕ → List SessionRow → List SessionRow
take zero rs = []
take (suc n) [] = []
take (suc n) (r ∷ rs) = r ∷ take n rs

unfoldable pub open_on : String → Db → List SessionRow
unfolding keep newest_first insert_newest take includes SessionStatus-discrete
open_on endpoint db = take 20 (newest_first (keep (is_open_on endpoint) db.sessions))

abbrev pub is_started : SessionRow → Bool
is_started r = same SessionStatus-discrete r.session.status SessionStatus.session_started

abbrev thirty_minutes : ℕ
thirty_minutes = 30 * 60000

-- `(launchRequestedAt ?? createdAt) >= observedAt - 30 min`
abbrev pub is_candidate : ℕ → SessionRow → Bool
is_candidate observed r =
    not (is_started r)
    && leb observed (get_or r.session.launch_requested_at r.session.created_at + thirty_minutes)

-- `updateMany({ where: { id, status: 'SESSION_STARTED' }, data: { lastSignalAt } })`, for each
unfoldable pub refresh : ℕ → List SessionRow → Db → Db
unfolding update_rows
refresh observed [] db = db
refresh observed (s ∷ ss) db = refresh observed ss (record db {
  sessions =
      update_rows (λ r. str_eq r.id s.id && is_started r) (set_last_signal_at (some observed) ∷ [])
        db.sessions;
})

abbrev observed_row : ℕ → ℕ → ℕ → SessionRow → EventRow
observed_row active n observed c = record {
  support_session_id = c.id;
  event = connection_observed_ambiguous;
  source = EventSource.endpoint_agent;
  occurred_at = Stamp.valid observed;
  dedupe_key = some (ambiguous_in (observed / 60000));
  applied = false;
  metadata = field "activeCount" (number active) (field "candidates" (number n) end);
  not_applied_reason = none;
}

-- The event row of one candidate; a duplicate in this minute is dropped.
unfoldable pub note_one : ℕ → ℕ → ℕ → SessionRow → Db → Db
unfolding is_duplicate
note_one active n observed c db =
    if is_duplicate c.id (some (ambiguous_in (observed / 60000))) db.events
    then db
    else record db { events = observed_row active n observed c ∷ db.events }

unfoldable pub note_ambiguous : ℕ → ℕ → ℕ → List SessionRow → Db → Db
unfolding note_one
note_ambiguous active n observed [] db = db
note_ambiguous active n observed (c ∷ cs) db =
    note_ambiguous active n observed cs (note_one active n observed c db)

abbrev agent_options : String → Fields → Options
agent_options key meta = record no_options { dedupe_key = some (fixed key); metadata = meta }

abbrev precision : Fields
precision = field "precision" (string "heartbeat interval (about 3 minutes)") end

-- `received` is the clock while the request is served; `others` as in `record_event`.
module _ (received : ℕ) (others : ℕ → Db → Db) where
  unfoldable pub signal : EventType → String → Fields → ℕ → String → Db → Db
  unfolding record_event
  signal type key meta observed id db =
      (record_event
        (record {
          type = type;
          source = EventSource.endpoint_agent;
          occurred_at = some (Stamp.valid observed);
          received_at = received;
        })
        (agent_options key meta) others id db).1

  unfoldable pub disconnect_all : ℕ → List SessionRow → Db → Db
  unfolding signal
  disconnect_all observed [] db = db
  disconnect_all observed (s ∷ ss) db =
      disconnect_all observed ss
        (signal EventType.disconnected "agent:disconnect" precision observed s.id db)

  -- What is left to explain: one recent launch is confirmed, several are noted on each.
  unfoldable pub attribute : ℕ → ℕ → List SessionRow → Db → Db
  unfolding signal note_ambiguous
  attribute active observed [] db = db
  attribute active observed (c ∷ []) db =
      signal EventType.connection_confirmed "agent:confirm"
        (field "attribution" (string "only_recent_launch_for_this_computer")
          (field "activeCount" (number active) precision))
        observed c.id db
  attribute active observed cs db = note_ambiguous active (length cs) observed cs db

  unfoldable pub reconcile_endpoint_signal : String → ℕ → ℕ → Db → Db
  unfolding open_on keep refresh attribute disconnect_all
  reconcile_endpoint_signal endpoint active observed db =
      let opened = open_on endpoint db in
      let confirmed = keep is_started opened in
      if ltb 0 active
      then (let db' = refresh observed confirmed db in
          if leb active (length confirmed)
          then db'
          else attribute active observed (keep (is_candidate observed) opened) db')
      else disconnect_all observed confirmed db
