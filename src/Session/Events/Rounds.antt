-- ===== src/Session/Events/Rounds.antt =====
-- What a round of `record` may do to a session, whatever other requests did since it was read.
use rem0te.Prelude.{
  ℕ, zero, suc, ◌≤◌, ◌≡◌, refl, inl, inr, true, Option, none, some, List, [], ◌∷◌, String, str_eq,
  arith, includes, Bool-cases, Forall₂,
}
use rem0te.Session.State.{SessionStatus-discrete, EventInput, apply_patch}
use rem0te.Session.Machine.{terminal, rank, apply_session_event}
use rem0te.Session.Store.{SessionRow, Db, find_row, is_current, patch_row, update_rows}
use rem0te.Session.Events.{
  Options, Round, stale, commit, decide, attempt, record_rounds, next_round,
}

-- No row that holds a terminal status is changed, and no status moves backwards: row by row.
abbrev pub Moves : SessionRow → SessionRow → Type 0
Moves r r' =
    (r'.id ≡ r.id)
    × (rank r.session.status ≤ rank r'.session.status)
    × (includes SessionStatus-discrete r.session.status terminal ≡ true → r' ≡ r)

abbrev pub AllMove : List SessionRow → List SessionRow → Type 0
AllMove = Forall₂ Moves

Moves-patch :
    (s r : SessionRow) (ev : EventInput)
    → is_current s r ≡ true
    → Moves r (patch_row (apply_session_event s.session ev).patch r)
unfolding apply_session_event apply_patch
Moves-patch s r ev h = grind arith

pub Moves-refl : (r : SessionRow) → Moves r r
Moves-refl r = (refl, omega arith, λ h. refl)

AllMove-refl : (rs : List SessionRow) → AllMove rs rs
AllMove-refl [] = tt
AllMove-refl (r ∷ rs) = (Moves-refl r, AllMove-refl rs)

AllMove-update_rows :
    (s : SessionRow) (ev : EventInput) (rs : List SessionRow)
    → AllMove rs (update_rows (is_current s) (apply_session_event s.session ev).patch rs)
unfolding update_rows
AllMove-update_rows s ev [] = tt
AllMove-update_rows s ev (r ∷ rs) = elim (Bool-cases (is_current s r)) [
  | inl h ↦ rw h (Moves-patch s r ev h, AllMove-update_rows s ev rs)
  | inr h ↦ rw h (Moves-refl r, AllMove-update_rows s ev rs)
]

AllMove-commit :
    (input : EventInput) (opts : Options) (s : SessionRow) (db : Db)
    → AllMove db.sessions (commit input opts s (apply_session_event s.session input) db).1.sessions
unfolding commit
AllMove-commit input opts s db =
    ground (arith, AllMove-refl db.sessions, AllMove-update_rows s input db.sessions)

AllMove-decide :
    (input : EventInput) (opts : Options) (o : Option SessionRow) (now : Db)
    → AllMove now.sessions (decide input opts o now).1.sessions
unfolding decide
AllMove-decide input opts none now = AllMove-refl now.sessions
AllMove-decide input opts (some s) now =
    ground (arith, AllMove-refl now.sessions, AllMove-commit input opts s now)

-- A round of `record` changes no session that is terminal by the time of its transaction and moves
-- no status backwards, whatever the tables were when the session was read.
pub attempt-AllMove :
    (input : EventInput) (opts : Options) (id : String) (before now : Db)
    → AllMove now.sessions (attempt input opts id before now).1.sessions
unfolding attempt
attempt-AllMove input opts id before now =
    AllMove-decide input opts (find_row id before.sessions) now

-- The session is still there, and has moved.
abbrev pub MovesTo : SessionRow → Option SessionRow → Type 0
MovesTo r none = ⊥
MovesTo r (some r') = Moves r r'

-- Every session of `db` is still there in `db'`, and has moved.
abbrev pub Keeps : Db → Db → Type 0
Keeps db db' =
    (id : String) (r : SessionRow)
    → find_row id db.sessions ≡ some r
    → MovesTo r (find_row id db'.sessions)

pub MovesTo-find_row :
    (rs rs' : List SessionRow) (id : String) (r : SessionRow)
    → AllMove rs rs'
    → find_row id rs ≡ some r
    → MovesTo r (find_row id rs')
unfolding find_row
MovesTo-find_row [] rs' id r m h = cc
MovesTo-find_row (x ∷ rs) [] id r m h = absurd m
MovesTo-find_row (x ∷ rs) (x' ∷ rs') id r m h = elim (Bool-cases (str_eq x.id id)) [
  | inl e ↦ ground arith
  | inr e ↦ ground (arith, MovesTo-find_row rs rs' id r m.1)
]

pub Moves-trans : (a b c : SessionRow) → Moves a b → Moves b c → Moves a c
Moves-trans a b c h k = grind arith

MovesTo-trans : (a b : SessionRow) (o : Option SessionRow) → Moves a b → MovesTo b o → MovesTo a o
MovesTo-trans a b none h k = elim k [ ]
MovesTo-trans a b (some c) h k = Moves-trans a b c h k

pub Keeps-trans : (a b c : Db) → Keeps a b → Keeps b c → Keeps a c
Keeps-trans a b c h k id r e = step (find_row id b.sessions) refl (h id r e)
  where
    step :
        (o : Option SessionRow)
        → find_row id b.sessions ≡ o
        → MovesTo r o
        → MovesTo r (find_row id c.sessions)
    step none p m = absurd m
    step (some x) p m = MovesTo-trans r x (find_row id c.sessions) m (k id x p)

pub attempt-Keeps :
    (input : EventInput) (opts : Options) (id : String) (before now : Db)
    → Keeps now (attempt input opts id before now).1
attempt-Keeps input opts id before now j r e =
    MovesTo-find_row now.sessions (attempt input opts id before now).1.sessions j r
      (attempt-AllMove input opts id before now) e

pub Keeps-refl : (db : Db) → Keeps db db
Keeps-refl db id r e = rw e (Moves-refl r)

Keeps-next_round :
    (again : Db → Round × Db)
    → ((d : Db) → Keeps d (again d).1)
    → (r : Round) (db db' : Db) → Keeps db db'
    → Keeps db (next_round again r db').1
unfolding next_round
Keeps-next_round again ih stale db db' k = Keeps-trans db db' (again db').1 k (ih db')
Keeps-next_round again ih _ db db' k = k

-- The lost race: whatever the other requests do between each read and its transaction, as long as
-- they too only move sessions, `record` only moves sessions.
pub record_rounds-Keeps :
    (input : EventInput) (opts : Options) (n : ℕ) (others : ℕ → Db → Db) (id : String) (db : Db)
    → ((k : ℕ) (d : Db) → Keeps d (others k d))
    → Keeps db (record_rounds input opts n others id db).1
unfolding record_rounds
record_rounds-Keeps input opts zero others id db h = Keeps-refl db
record_rounds-Keeps input opts (suc n) others id db h =
    Keeps-next_round (λ d. record_rounds input opts n others id d)
      (λ d. record_rounds-Keeps input opts n others id d h)
      (attempt input opts id db (others n db)).0 db (attempt input opts id db (others n db)).1
      (Keeps-trans db (others n db) (attempt input opts id db (others n db)).1 (h n db)
        (attempt-Keeps input opts id db (others n db)))
