-- ===== src/Session/Machine/Order.antt =====
-- How a status moves under the events of session-state.ts.
use rem0te.Prelude.{
  ℕ, ◌+◌, ◌≤◌, ◌<◌, ◌≡◌, inl, inr, true, false, List, [], ◌∷◌, arith, if◌then◌else◌, includes,
  Bool-cases,
}
use rem0te.Session.State.{
  Session, SessionStatus, EventType, EventInput, apply_patch, SessionStatus-discrete,
}
use rem0te.Session.Machine.{terminal, rank, dispatch, apply_session_event, after, event_at}

abbrev pub IsTerminal : Session → Type 0
IsTerminal s = includes SessionStatus-discrete s.status terminal ≡ true

-- A session in a terminal status is never changed: every event is refused and the row stays.
pub terminal_final :
    (s : Session) (ev : EventInput)
    → IsTerminal s
    → ((apply_session_event s ev).applied ≡ false) × (after s ev ≡ s)
unfolding after
terminal_final s ev h = ground arith

rank-dispatch :
    (t : EventType) (s : Session) (ev : EventInput) (at : ℕ)
    → rank s.status ≤ 4
    → (dispatch t s ev at).applied ≡ true
    → rank s.status < rank (apply_patch (dispatch t s ev at).patch s).status
unfolding dispatch apply_patch
rank-dispatch EventType.launch_requested s ev at o h = ground arith
rank-dispatch _ s ev at o h = ground arith

open_rank :
    (s : Session) → includes SessionStatus-discrete s.status terminal ≡ false → rank s.status ≤ 4
unfolding includes SessionStatus-discrete
open_rank s h = ground arith

-- An applied event moves the status strictly forward in the rank of the code.
pub rank-after :
    (s : Session) (ev : EventInput)
    → (apply_session_event s ev).applied ≡ true
    → rank s.status < rank (after s ev).status
unfolding after
rank-after s ev h = ground (arith, open_rank s, rank-dispatch ev.type s ev (event_at s ev))

status-dispatch :
    (t : EventType) (s : Session) (ev : EventInput) (at : ℕ)
    → (dispatch t s ev at).applied ≡ false
    → (apply_patch (dispatch t s ev at).patch s).status ≡ s.status
unfolding dispatch apply_patch
status-dispatch EventType.launch_requested s ev at h = ground arith
status-dispatch _ s ev at h = ground arith

pub status-after :
    (s : Session) (ev : EventInput)
    → (apply_session_event s ev).applied ≡ false
    → (after s ev).status ≡ s.status
unfolding after
status-after s ev h = ground (arith, status-dispatch ev.type s ev (event_at s ev))

unfoldable pub run : Session → List EventInput → Session
run s [] = s
run s (ev ∷ evs) = run (after s ev) evs

unfoldable pub count_applied : Session → List EventInput → ℕ
count_applied s [] = 0
count_applied s (ev ∷ evs) =
    (if (apply_session_event s ev).applied then 1 else 0) + count_applied (after s ev) evs

-- How many steps a status is away from the end.
steps_left : SessionStatus → ℕ
steps_left SessionStatus.pending = 5
steps_left SessionStatus.launch_requested = 4
steps_left SessionStatus.launcher_acknowledged = 3
steps_left SessionStatus.client_opened = 2
steps_left SessionStatus.session_started = 1
steps_left _ = 0

steps_left-le : (a : SessionStatus) → steps_left a ≤ 5
unfolding steps_left
steps_left-le SessionStatus.pending = omega arith
steps_left-le _ = omega arith

steps_left_lt : (a b : SessionStatus) → rank a < rank b → steps_left b < steps_left a
unfolding steps_left
steps_left_lt SessionStatus.pending b h = ground arith
steps_left_lt a b h = ground arith

steps_left-after :
    (s : Session) (ev : EventInput)
    → (if (apply_session_event s ev).applied then 1 else 0) + steps_left (after s ev).status
      ≤ steps_left s.status
steps_left-after s ev = elim (Bool-cases (apply_session_event s ev).applied) [
  | inl h ↦ rw h (omega (arith, steps_left_lt s.status (after s ev).status (rank-after s ev h)))
  | inr h ↦ rw h (rw (status-after s ev h) (omega arith))
]

count_applied-le : (s : Session) (evs : List EventInput) → count_applied s evs ≤ steps_left s.status
unfolding count_applied
count_applied-le s [] = omega arith
count_applied-le s (ev ∷ evs) =
    omega (arith, steps_left-after s ev, count_applied-le (after s ev) evs)

-- Over any sequence of events at most five are applied to one session.
pub count_applied-le-five : (s : Session) (evs : List EventInput) → count_applied s evs ≤ 5
count_applied-le-five s evs = omega (arith, count_applied-le s evs, steps_left-le s.status)
