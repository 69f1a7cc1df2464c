-- ===== src/Session/Events.antt =====
-- apps/api/src/sessions/session-events.service.ts: `record`, and the two callers that turn a
-- telemetry token and an agent's heartbeat into events.
pub mod Rounds
pub mod Alone
use rem0te.Prelude.{
  ℕ, zero, suc, ◌+◌, ◌-◌, ◌*◌, ◌/◌, Bool, true, false, ◌&&◌, ◌||◌, not, Option, none, some, List,
  [], ◌∷◌, String, str_eq, ◌==◌, ltb, leb, any, same, includes, if◌then◌else◌, get_or, length,
  codes, all,
}
use rem0te.Prelude.Json.{Fields, end}
use rem0te.Session.State.{
  Session, SessionStatus, SessionStatus-discrete, EventType, EventSource, EventInput, Stamp, Reason,
  Change, TransitionResult, apply_patch, set_status, set_last_signal_at,
}
use rem0te.Session.Machine.{apply_session_event, open_statuses}
use rem0te.Session.Store.{
  SessionRow, EventRow, AuditRow, Db, DedupeKey, fixed, ambiguous_in, typed,
  connection_observed_ambiguous, find_row, is_duplicate, is_current, update_rows,
}

pub record Options : Type 0 where
  pub dedupe_key : Option DedupeKey
  pub metadata : Fields
  pub actor_id : Option String
  pub require_applied : Bool

-- `TransitionResult & { duplicate?, status? }`
pub record Outcome : Type 0 where
  pub result : TransitionResult
  pub duplicate : Bool
  pub status : Option SessionStatus

abbrev refused : Reason → TransitionResult
refused why = record { applied = false; reason = some why; patch = [] }

-- What one round of the loop of `record` does.
pub data Round : Type 0 where
  returned : Outcome → Round
  stale : Round
  raised : Round

abbrev pub has_changes : List Change → Bool
has_changes [] = false
has_changes (_ ∷ _) = true

unfoldable pub status_of : List Change → Option SessionStatus
status_of [] = none
status_of (set_status x ∷ cs) = some x
status_of (c ∷ cs) = status_of cs

abbrev or_status : Option SessionStatus → SessionStatus → SessionStatus
or_status none s = s
or_status (some x) s = x

abbrev pub occurred : EventInput → Stamp
occurred ev = elim ev.occurred_at [ none ↦ Stamp.valid ev.received_at | some t ↦ t ]

-- `continue` after a stale snapshot; any other round is the last.
unfoldable pub next_round : (Db → Round × Db) → Round → Db → Round × Db
next_round again stale db = again db
next_round again r db = (r, db)

module _ (input : EventInput) (opts : Options) where
  abbrev pub event_row : SessionRow → TransitionResult → EventRow
  event_row s result = record {
    support_session_id = s.id;
    event = typed input.type;
    source = input.source;
    occurred_at = occurred input;
    dedupe_key = opts.dedupe_key;
    applied = result.applied;
    metadata = opts.metadata;
    not_applied_reason = if result.applied then none else result.reason;
  }

  abbrev audit_row : SessionRow → TransitionResult → AuditRow
  audit_row s result = record {
    tenant_id = s.tenant_id;
    customer_id = s.customer_id;
    actor_id = opts.actor_id;
    resource_id = s.id;
    old_status = s.session.status;
    new_status = status_of result.patch;
    event = input.type;
    source = input.source;
  }

  -- The transaction and what follows it, on the tables as they are by then: `s` was read before.
  -- A missing session breaks the foreign key of the event row, and a patch that matches no row
  -- rolls the event back.
  unfoldable pub commit : SessionRow → TransitionResult → Db → Round × Db
  unfolding is_duplicate update_rows any status_of
  commit s result db =
      if not (any (λ r. str_eq r.id s.id) db.sessions)
      then (raised, db)
      else if is_duplicate s.id opts.dedupe_key db.events
      then (
        returned (record {
          result = refused Reason.not_a_forward_step;
          duplicate = true;
          status = some s.session.status;
        }),
        db,
      )
      else if has_changes result.patch && not (any (is_current s) db.sessions)
      then (stale, db)
      else (
        returned (record {
          result = result;
          duplicate = false;
          status = some (or_status (status_of result.patch) s.session.status);
        }),
        record {
          sessions =
              if has_changes result.patch
              then update_rows (is_current s) result.patch db.sessions
              else db.sessions;
          events = event_row s result ∷ db.events;
          audit = if result.applied then audit_row s result ∷ db.audit else db.audit;
        },
      )

  -- What `record` does with the row that it read, or with none.
  unfoldable pub decide : Option SessionRow → Db → Round × Db
  unfolding commit apply_session_event
  decide none now = (
    returned (record { result = refused Reason.session_closed; duplicate = false; status = none }),
    now,
  )
  decide (some s) now =
      let result = apply_session_event s.session input in
      if opts.require_applied && not result.applied
      then (
        returned (record { result = result; duplicate = false; status = some s.session.status }),
        now,
      )
      else commit s result now

  -- One round: the read of `before`, the decision, the transaction on `now`.
  unfoldable pub attempt : String → Db → Db → Round × Db
  unfolding decide find_row
  attempt id before now = decide (find_row id before.sessions) now

  -- The rounds that are left. `others n` is what other requests do to the tables between the read
  -- and the transaction, when `n` more rounds are left.
  unfoldable pub record_rounds : ℕ → (ℕ → Db → Db) → String → Db → Round × Db
  unfolding attempt next_round
  record_rounds zero others id db = (
    returned
        (record { result = refused Reason.not_a_forward_step; duplicate = false; status = none }),
    db,
  )
  record_rounds (suc n) others id db =
      let (r, db') = attempt id db (others n db) in
      next_round (λ d. record_rounds n others id d) r db'

  -- `record`: three rounds, then it gives up.
  unfoldable pub record_event : (ℕ → Db → Db) → String → Db → Round × Db
  unfolding record_rounds
  record_event others id db = record_rounds 3 others id db

-- `/^[0-9a-f]{48}$/`
abbrev is_hex : ℕ → Bool
is_hex c = leb b'0' c && leb c b'9' || leb b'a' c && leb c b'f'

unfoldable pub is_token : String → Bool
unfolding all
is_token token = all is_hex (codes token) && length (codes token) == 48

unfoldable pub find_token : String → List SessionRow → Option SessionRow
find_token hash [] = none
find_token hash (r ∷ rs) = elim r.telemetry_token_hash [
  | none ↦ find_token hash rs
  | some h ↦ if str_eq h hash then some r else find_token hash rs
]

-- `{ accepted, applied?, status? }`
pub data Telemetry : Type 0 where
  rejected : Telemetry
  accepted : Round → Telemetry

abbrev pub no_options : Options
no_options = record { dedupe_key = none; metadata = end; actor_id = none; require_applied = false }

abbrev pub script_key : EventType → String
script_key EventType.launcher_acknowledged = "script:launcher_acknowledged"
script_key EventType.client_opened = "script:client_opened"
script_key _ = "script:client_launch_failed"

abbrev twelve_hours : ℕ
twelve_hours = 12 * 3600000

-- `detail` is the printable detail, cut to 200 characters. `sha256` and the clock are given.
module _ (sha256 : String → String) (now : ℕ) (others : ℕ → Db → Db) where
  unfoldable pub record_script_telemetry : String → EventType → Fields → Db → Telemetry × Db
  unfolding is_token find_token record_event
  record_script_telemetry token type detail db =
      if not (is_token token)
      then (rejected, db)
      else elim (find_token (sha256 token) db.sessions) [
        | none ↦ (rejected, db)
        | some s ↦
            if ltb (s.session.created_at + twelve_hours) now
            then (rejected, db)
            else let (r, db') =
                record_event
                  (record {
                    type = type;
                    source = EventSource.connect_script;
                    occurred_at = none;
                    received_at = now;
                  })
                  (record no_options {
                    dedupe_key = some (fixed (script_key type));
                    metadata = detail;
                  })
                  others s.id db in
              (accepted r, db')
      ]
