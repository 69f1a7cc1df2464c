-- ===== src/Session/Store.antt =====
-- The tables that apps/api/src/sessions/session-events.service.ts reads and writes: support
-- sessions, their events with the unique index on (session, dedupe key), and the audit log.
-- A table is a list of its rows; an id is compared for equality only.
use rem0te.Prelude.{
  ℕ, Bool, true, false, ◌&&◌, Option, none, some, List, [], ◌∷◌, String, str_eq, ◌==◌, any, same,
  if◌then◌else◌,
}
use rem0te.Prelude.Json.{Fields}
use rem0te.Session.State.{
  Session, SessionStatus, SessionStatus-discrete, EventType, EventSource, Stamp, Reason, Change,
  apply_patch,
}

pub record SessionRow : Type 0 where
  pub id : String
  pub tenant_id : String
  pub customer_id : Option String
  pub endpoint_id : Option String
  pub is_ad_hoc : Bool
  pub telemetry_token_hash : Option String
  pub session : Session
  pub technician_id : Option String
  pub notes : Option String
  pub disposition : Option String
  pub manual_work_minutes : Option ℕ

-- `agent:ambiguous:${bucket}` is kept apart from the fixed keys, with its number.
pub data DedupeKey : Type 0 where
  fixed : String → DedupeKey
  ambiguous_in : ℕ → DedupeKey

pub data EventName : Type 0 where
  typed : EventType → EventName
  connection_observed_ambiguous : EventName

pub record EventRow : Type 0 where
  pub support_session_id : String
  pub event : EventName
  pub source : EventSource
  pub occurred_at : Stamp
  pub dedupe_key : Option DedupeKey
  pub applied : Bool
  pub metadata : Fields
  pub not_applied_reason : Option Reason

-- The entry of action SESSION_STATE_CHANGED.
pub record AuditRow : Type 0 where
  pub tenant_id : String
  pub customer_id : Option String
  pub actor_id : Option String
  pub resource_id : String
  pub old_status : SessionStatus
  pub new_status : Option SessionStatus
  pub event : EventType
  pub source : EventSource

pub record Db : Type 0 where
  pub sessions : List SessionRow
  pub events : List EventRow
  pub audit : List AuditRow

-- `findUnique` by id
unfoldable pub find_row : String → List SessionRow → Option SessionRow
find_row id [] = none
find_row id (r ∷ rs) = if str_eq r.id id then some r else find_row id rs

abbrev pub key_eq : DedupeKey → DedupeKey → Bool
key_eq (fixed a) (fixed b) = str_eq a b
key_eq (ambiguous_in a) (ambiguous_in b) = a == b
key_eq _ _ = false

-- Two rows with no key never clash.
abbrev pub clashes : String → Option DedupeKey → EventRow → Bool
clashes id none e = false
clashes id (some k) e = elim e.dedupe_key [
  | none ↦ false
  | some j ↦ str_eq e.support_session_id id && key_eq j k
]

-- The unique index refuses an event: error P2002.
unfoldable pub is_duplicate : String → Option DedupeKey → List EventRow → Bool
unfolding any
is_duplicate id k es = any (clashes id k) es

abbrev pub same_instant : Option ℕ → Option ℕ → Bool
same_instant none none = true
same_instant (some a) (some b) = a == b
same_instant _ _ = false

-- `where: { id, status, statusChangedAt }`
abbrev pub is_current : SessionRow → SessionRow → Bool
is_current s r =
    str_eq r.id s.id
    && same SessionStatus-discrete r.session.status s.session.status
    && same_instant r.session.status_changed_at s.session.status_changed_at

abbrev pub patch_row : List Change → SessionRow → SessionRow
patch_row patch r = record r { session = apply_patch patch r.session }

-- `updateMany` of the rows that a test selects
unfoldable pub update_rows : (SessionRow → Bool) → List Change → List SessionRow → List SessionRow
update_rows p patch [] = []
update_rows p patch (r ∷ rs) = (if p r then patch_row patch r else r) ∷ update_rows p patch rs
