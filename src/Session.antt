-- ===== src/Session.antt =====
-- Support sessions: apps/api/src/sessions/session-state.ts, session-events.service.ts and
-- sessions.service.ts.
pub mod Telemetry
pub mod State
pub mod Machine
pub mod Store
pub mod Events
pub mod Reconcile
pub mod Service
pub mod Sweep
mod Tests
