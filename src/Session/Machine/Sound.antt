-- ===== src/Session/Machine/Sound.antt =====
-- The invariant of a session row, and that every event keeps it.
use rem0te.Prelude.{
  ℕ, ◌≤◌, ◌≡◌, ◌≢◌, Option, none, some, List, [], ◌∷◌, false, arith, includes, All,
}
use rem0te.Session.State.{
  Session, SessionStatus, SessionStatus-discrete, EventType, EventInput, TimingQuality, apply_patch,
}
use rem0te.Session.Machine.{dispatch, after, event_at, seconds_between, terminal}
use rem0te.Session.Machine.Order.{run}

-- The instant is recorded, and is not before `lo`.
abbrev pub IsFrom : ℕ → Option ℕ → Type 0
IsFrom lo none = ⊥
IsFrom lo (some a) = lo ≤ a

-- A duration, between two recorded instants in order.
abbrev pub IsBetween : Option ℕ → Option ℕ → Option ℕ → Type 0
IsBetween (some a) (some b) (some d) = (a ≤ b) × (d ≡ seconds_between a b)
IsBetween _ _ _ = ⊥

abbrev IsOpen : Session → Type 0
IsOpen s = includes SessionStatus-discrete s.status terminal ≡ false

-- An open session has no end and claims no duration; a confirmed one has its instant. A duration
-- comes exactly with the quality "measured", on a completed session, and is then the time between
-- the confirmation and the end.
pub record IsSound (s : Session) : Type 0 where
  pub confirmed :
      s.status ≡ SessionStatus.session_started → IsFrom s.created_at s.connection_confirmed_at
  pub open_unended :
      IsOpen s
      → (s.ended_at ≡ none) × (s.duration ≡ none) × (s.timing_quality ≢ TimingQuality.measured)
  pub measured :
      s.timing_quality ≡ TimingQuality.measured
      → (s.status ≡ SessionStatus.session_completed)
        × IsBetween s.connection_confirmed_at s.ended_at s.duration
  pub unmeasured : s.timing_quality ≢ TimingQuality.measured → s.duration ≡ none

pub clamp_bounds :
    (s : Session) (ev : EventInput)
    → s.created_at ≤ ev.received_at
    → (s.created_at ≤ event_at s ev) × (event_at s ev ≤ ev.received_at)
unfolding event_at
clamp_bounds s ev h = ground arith

IsSound-dispatch :
    (t : EventType) (s : Session) (ev : EventInput) (at : ℕ)
    → IsSound s
    → s.created_at ≤ at
    → IsOpen s
    → IsSound (apply_patch (dispatch t s ev at).patch s)
unfolding dispatch apply_patch includes SessionStatus-discrete
IsSound-dispatch EventType.launch_requested s ev at v c o = ground arith
IsSound-dispatch _ s ev at v c o = ground arith

-- Every event keeps the invariant, if it was received after the session was created.
pub after-IsSound :
    (s : Session) (ev : EventInput)
    → IsSound s
    → s.created_at ≤ ev.received_at
    → IsSound (after s ev)
unfolding after
after-IsSound s ev v c =
    grind (arith, IsSound-dispatch ev.type s ev (event_at s ev) v (clamp_bounds s ev c).0)

created-dispatch :
    (t : EventType) (s : Session) (ev : EventInput) (at : ℕ)
    → (apply_patch (dispatch t s ev at).patch s).created_at ≡ s.created_at
unfolding dispatch apply_patch
created-dispatch EventType.launch_requested s ev at = ground arith
created-dispatch _ s ev at = ground arith

created-after : (s : Session) (ev : EventInput) → (after s ev).created_at ≡ s.created_at
unfolding after
created-after s ev = ground (arith, created-dispatch ev.type s ev (event_at s ev))

-- Whatever the events, in whatever order, a row that is sound stays sound, if all were received
-- after the session was created.
pub run-IsSound :
    (s : Session) (evs : List EventInput)
    → IsSound s
    → All (λ ev. s.created_at ≤ ev.received_at) evs
    → IsSound (run s evs)
unfolding run
run-IsSound s [] v c = v
run-IsSound s (ev ∷ evs) v c =
    run-IsSound (after s ev) evs (after-IsSound s ev v c.0) (rw created-after c.1)
