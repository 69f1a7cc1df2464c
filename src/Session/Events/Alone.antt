-- ===== src/Session/Events/Alone.antt =====
-- `record` when no other request comes between: it is one step of the session machine.
use rem0te.Prelude.{
  ℕ, zero, suc, ◌≡◌, refl, ◌⊎◌, inl, inr, ap, Bool, true, false, Option, none, some, List, [], ◌∷◌,
  String, str_eq, eq_iff, arith, any, same_iff, Bool-cases, ◌∙◌,
}
use rem0te.Session.State.{Session, SessionStatus-discrete, EventInput, Change, apply_patch}
use rem0te.Session.Machine.{apply_session_event, after, dispatch, event_at}
use rem0te.Session.Store.{
  SessionRow, Db, find_row, is_current, same_instant, patch_row, update_rows, is_duplicate,
}
use rem0te.Session.Events.{
  Options, Round, returned, stale, commit, decide, attempt, record_event, has_changes, event_row,
  Outcome, status_of, EventType, or_status, record_rounds, next_round,
}

same_instant_refl : (o : Option ℕ) → same_instant o o ≡ true
same_instant_refl none = refl
same_instant_refl (some a) = ground arith

is_current_refl : (r : SessionRow) → is_current r r ≡ true
is_current_refl r = ground (
  arith,
  eq_iff r.id r.id,
  same_iff SessionStatus-discrete r.session.status r.session.status,
  same_instant_refl r.session.status_changed_at,
)

pub id-find_row :
    (id : String) (rs : List SessionRow) (r : SessionRow) → find_row id rs ≡ some r → r.id ≡ id
unfolding find_row
id-find_row id [] r h = cc
id-find_row id (x ∷ rs) r h = elim (Bool-cases (str_eq x.id id)) [
  | inl e ↦ ground (arith, eq_iff x.id id)
  | inr e ↦ id-find_row id rs r (ground arith)
]

any-find_row :
    (id : String) (rs : List SessionRow) (r : SessionRow) (p : SessionRow → Bool)
    → find_row id rs ≡ some r
    → p r ≡ true
    → any p rs ≡ true
unfolding find_row any
any-find_row id [] r p h k = cc
any-find_row id (x ∷ rs) r p h k = elim (Bool-cases (str_eq x.id id)) [
  | inl e ↦ ground arith
  | inr e ↦ ground (arith, any-find_row id rs r p)
]

find_row-update_rows :
    (id : String) (rs : List SessionRow) (r : SessionRow) (p : SessionRow → Bool)
    (patch : List Change)
    → find_row id rs ≡ some r
    → p r ≡ true
    → find_row id (update_rows p patch rs) ≡ some (patch_row patch r)
unfolding find_row update_rows
find_row-update_rows id [] r p patch h k = cc
find_row-update_rows id (x ∷ rs) r p patch h k = elim (Bool-cases (str_eq x.id id)) [
  | inl e ↦ ground arith
  | inr e ↦ ground (arith, find_row-update_rows id rs r p patch)
]

status_of-dispatch :
    (t : EventType) (s : Session) (ev : EventInput) (at : ℕ)
    → or_status (status_of (dispatch t s ev at).patch) s.status
      ≡ (apply_patch (dispatch t s ev at).patch s).status
unfolding dispatch apply_patch status_of
status_of-dispatch EventType.launch_requested s ev at = ground arith
status_of-dispatch _ s ev at = ground arith

-- The status that the caller is told is the status of the row after the patch.
status_of-after :
    (s : Session) (ev : EventInput)
    → or_status (status_of (apply_session_event s ev).patch) s.status ≡ (after s ev).status
unfolding after status_of
status_of-after s ev = ground (arith, status_of-dispatch ev.type s ev (event_at s ev))

abbrev pub alone : ℕ → Db → Db
alone n db = db

abbrev pub answer : SessionRow → EventInput → Outcome
answer r input = record {
  result = apply_session_event r.session input;
  duplicate = false;
  status = some (after r.session input).status;
}

abbrev pub row_after : SessionRow → EventInput → SessionRow
row_after r input = record r { session = after r.session input }

module _ (input : EventInput) (opts : Options) (id : String) (db : Db) (r : SessionRow)
    (found : find_row id db.sessions ≡ some r) where
  has_row : any (λ x. str_eq x.id r.id) db.sessions ≡ true
  has_row =
      any-find_row id db.sessions r (λ x. str_eq x.id r.id) found (ground (arith, eq_iff r.id r.id))

  is_current_row : any (is_current r) db.sessions ≡ true
  is_current_row = any-find_row id db.sessions r (is_current r) found (is_current_refl r)

  patched_row :
      find_row id
        (update_rows (is_current r) (apply_session_event r.session input).patch db.sessions)
      ≡ some (row_after r input)
  unfolding after
  patched_row =
      find_row-update_rows id db.sessions r (is_current r)
        (apply_session_event r.session input).patch found (is_current_refl r)

  unpatched_row :
      has_changes (apply_session_event r.session input).patch ≡ false → row_after r input ≡ r
  unfolding after apply_patch
  unpatched_row h = ground arith

  pub commit_row :
      is_duplicate id opts.dedupe_key db.events ≡ false
      → let (out, db') = commit input opts r (apply_session_event r.session input) db in
        (out ≡ returned (answer r input))
        × (find_row id db'.sessions ≡ some (row_after r input))
        × (db'.events ≡ event_row input opts r (apply_session_event r.session input) ∷ db.events)
  unfolding commit
  commit_row h = ground (
    arith,
    has_row,
    is_current_row,
    patched_row,
    unpatched_row,
    id-find_row id db.sessions r found,
    status_of-after r.session input,
  )

pub attempt-decide :
    (input : EventInput) (opts : Options) (id : String) (db now : Db) (r : SessionRow)
    → find_row id db.sessions ≡ some r
    → attempt input opts id db now ≡ decide input opts (some r) now
unfolding attempt
attempt-decide input opts id db now r h = ap (λ o. decide input opts o now) h

pub decide-commit :
    (input : EventInput) (opts : Options) (r : SessionRow) (now : Db)
    → opts.require_applied ≡ false
    → decide input opts (some r) now ≡ commit input opts r (apply_session_event r.session input) now
unfolding decide
decide-commit input opts r now h = rw h

-- A round that is not stale is the last one.
pub record_event-last :
    (input : EventInput) (opts : Options) (id : String) (db db' : Db) (out : Outcome)
    → attempt input opts id db db ≡ (returned out, db')
    → record_event input opts alone id db ≡ (returned out, db')
unfolding record_event
record_event-last input opts id db db' out h = rw (h, record_rounds)

-- With no other request in between, an event that is not a duplicate and need not be applied is
-- answered in the first round: the row becomes the machine's next row, the answer carries the
-- machine's verdict and the new status, and the event is on the timeline with its verdict.
pub record_event-after :
    (input : EventInput) (opts : Options) (id : String) (db : Db) (r : SessionRow)
    → find_row id db.sessions ≡ some r
    → is_duplicate id opts.dedupe_key db.events ≡ false
    → opts.require_applied ≡ false
    → let (out, db') = record_event input opts alone id db in
      (out ≡ returned (answer r input))
      × (find_row id db'.sessions ≡ some (row_after r input))
      × (db'.events ≡ event_row input opts r (apply_session_event r.session input) ∷ db.events)
unfolding record_event
record_event-after input opts id db r found fresh loose =
    let (out, row, timeline) = commit_row input opts id db r found fresh in
    let done =
      attempt-decide input opts id db db r found
      ∙ decide-commit input opts r db loose
      ∙ ap (λ o. (o, (commit input opts r (apply_session_event r.session input) db).1)) out in
    rw (record_event-last input opts id db _ (answer r input) done) (refl, row, timeline)

next_round-unchanged :
    (again : Db → Round × Db) (db : Db)
    → (again db).1 ≡ db
    → (x : Round) (db' : Db) → db' ≡ db
    → (next_round again x db').1 ≡ db
unfolding next_round
next_round-unchanged again db h stale db' e = rw e h
next_round-unchanged again db h _ db' e = e

record_rounds-unchanged :
    (input : EventInput) (opts : Options) (n : ℕ) (id : String) (db : Db)
    → (attempt input opts id db db).1 ≡ db
    → (record_rounds input opts n alone id db).1 ≡ db
unfolding record_rounds
record_rounds-unchanged input opts zero id db h = refl
record_rounds-unchanged input opts (suc n) id db h =
    next_round-unchanged (λ d. record_rounds input opts n alone id d) db
      (record_rounds-unchanged input opts n id db h) (attempt input opts id db db).0
      (attempt input opts id db db).1 h

decide-unchanged :
    (input : EventInput) (opts : Options) (r : SessionRow) (db : Db)
    → (is_duplicate r.id opts.dedupe_key db.events ≡ true)
      ⊎ ((opts.require_applied ≡ true) × ((apply_session_event r.session input).applied ≡ false))
    → (decide input opts (some r) db).1 ≡ db
unfolding decide
decide-unchanged input opts r db h = ground arith

-- A duplicate, and a refused event of a request that had to be applied, change no table.
pub record_event-unchanged :
    (input : EventInput) (opts : Options) (id : String) (db : Db) (r : SessionRow)
    → find_row id db.sessions ≡ some r
    → (is_duplicate id opts.dedupe_key db.events ≡ true)
      ⊎ ((opts.require_applied ≡ true) × ((apply_session_event r.session input).applied ≡ false))
    → (record_event input opts alone id db).1 ≡ db
unfolding record_event
record_event-unchanged input opts id db r found h = record_rounds-unchanged input opts 3 id db (
    ap (λ x. x.1) (attempt-decide input opts id db db r found)
    ∙ decide-unchanged input opts r db (rw (id-find_row id db.sessions r found) h))
