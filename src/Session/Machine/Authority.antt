-- ===== src/Session/Machine/Authority.antt =====
-- Which events may confirm a connection, and which may claim a measured duration.
use rem0te.Prelude.{ℕ, ◌≡◌, ◌≢◌, ◌⊎◌, inl, inr, true, some, List, [], ◌∷◌, arith, includes, Any}
use rem0te.Session.State.{
  Session, SessionStatus, EventType, EventSource, EventSource-discrete, EventInput, TimingQuality,
  TimingQuality-discrete, apply_patch,
}
use rem0te.Session.Machine.{allowed_sources, dispatch, after, event_at}
use rem0te.Session.Machine.Order.{run}

confirm-dispatch :
    (t : EventType) (s : Session) (ev : EventInput) (at : ℕ)
    → s.status ≢ SessionStatus.session_started
    → (apply_patch (dispatch t s ev at).patch s).status ≡ SessionStatus.session_started
    → t ≡ EventType.connection_confirmed
unfolding dispatch apply_patch
confirm-dispatch EventType.launch_requested s ev at n h = ground arith
confirm-dispatch _ s ev at n h = ground arith

abbrev IsAllowed : EventInput → Type 0
IsAllowed ev = includes EventSource-discrete ev.source (allowed_sources ev.type) ≡ true

-- An event leaves the row alone, or its source is allowed and the `switch` decides.
after-cases :
    (s : Session) (ev : EventInput)
    → (after s ev ≡ s)
      ⊎ (IsAllowed ev × (after s ev ≡ apply_patch (dispatch ev.type s ev (event_at s ev)).patch s))
unfolding after
after-cases s ev = ground arith

abbrev pub Confirms : EventInput → Type 0
Confirms ev =
    (ev.type ≡ EventType.connection_confirmed)
    × ((ev.source ≡ EventSource.endpoint_agent) ⊎ (ev.source ≡ EventSource.technician))

-- A session becomes confirmed only by a confirming event from the endpoint agent or a technician.
pub confirmed_by :
    (s : Session) (ev : EventInput)
    → s.status ≢ SessionStatus.session_started
    → (after s ev).status ≡ SessionStatus.session_started
    → Confirms ev
unfolding after
confirmed_by s ev n h = ground (arith, confirm-dispatch ev.type s ev (event_at s ev))

measured-dispatch :
    (t : EventType) (s : Session) (ev : EventInput) (at : ℕ)
    → s.timing_quality ≢ TimingQuality.measured
    → (apply_patch (dispatch t s ev at).patch s).timing_quality ≡ TimingQuality.measured
    → (t ≡ EventType.disconnected)
      × (s.status ≡ SessionStatus.session_started)
      × (s.status_source ≡ some EventSource.endpoint_agent)
unfolding dispatch apply_patch
measured-dispatch EventType.launch_requested s ev at n h = ground arith
measured-dispatch _ s ev at n h = ground arith

abbrev Linked : Session → Type 0
Linked s =
    (s.status ≡ SessionStatus.session_started) × (s.status_source ≡ some EventSource.endpoint_agent)

abbrev pub AgentSent : EventType → EventInput → Type 0
AgentSent t ev = (ev.type ≡ t) × (ev.source ≡ EventSource.endpoint_agent)

Linked-dispatch :
    (t : EventType) (s : Session) (ev : EventInput) (at : ℕ)
    → Linked (apply_patch (dispatch t s ev at).patch s)
    → Linked s ⊎ ((t ≡ EventType.connection_confirmed) × (ev.source ≡ EventSource.endpoint_agent))
unfolding dispatch apply_patch
Linked-dispatch EventType.launch_requested s ev at h = ground arith
Linked-dispatch _ s ev at h = ground arith

Linked-after :
    (s : Session) (ev : EventInput)
    → Linked (after s ev)
    → Linked s ⊎ AgentSent EventType.connection_confirmed ev
unfolding after
Linked-after s ev h = ground (arith, Linked-dispatch ev.type s ev (event_at s ev))

disconnected_source :
    (ev : EventInput)
    → ev.type ≡ EventType.disconnected
    → IsAllowed ev
    → ev.source ≡ EventSource.endpoint_agent
unfolding includes EventSource-discrete
disconnected_source ev t h = ground arith

measured-after :
    (s : Session) (ev : EventInput)
    → s.timing_quality ≢ TimingQuality.measured
    → (after s ev).timing_quality ≡ TimingQuality.measured
    → AgentSent EventType.disconnected ev × Linked s
measured-after s ev n h = elim (after-cases s ev) [
  | inl e ↦ absurd (n (cc (e, h)))
  | inr (allowed, same) ↦
      let (sent, started, agent) =
        measured-dispatch ev.type s ev (event_at s ev) n (rw same at h) in
      ((sent, disconnected_source ev sent allowed), (started, agent))
]

-- An end was measured by a session that the agent confirmed, before these events or in them.
measured-run :
    (s : Session) (evs : List EventInput)
    → s.timing_quality ≢ TimingQuality.measured
    → (run s evs).timing_quality ≡ TimingQuality.measured
    → (Linked s ⊎ Any (AgentSent EventType.connection_confirmed) evs)
      × Any (AgentSent EventType.disconnected) evs
unfolding run
measured-run s [] n h = absurd (n h)
measured-run s (ev ∷ evs) n h =
    elim (TimingQuality-discrete (after s ev).timing_quality TimingQuality.measured) [
      | yes m ↦ let (sent, linked) = measured-after s ev n m in (inl linked, inl sent)
      | no m ↦ ground (arith, measured-run (after s ev) evs m h, Linked-after s ev)
    ]

-- A duration is measured only if the endpoint agent itself reported both ends: the events hold a
-- confirmation and a disconnection by the agent, if the session was neither confirmed nor measured
-- before.
pub measured_by_agent :
    (s : Session) (evs : List EventInput)
    → s.timing_quality ≢ TimingQuality.measured
    → s.status ≢ SessionStatus.session_started
    → (run s evs).timing_quality ≡ TimingQuality.measured
    → Any (AgentSent EventType.connection_confirmed) evs
      × Any (AgentSent EventType.disconnected) evs
measured_by_agent s evs n u h = ground (arith, measured-run s evs n h)
