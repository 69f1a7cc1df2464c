-- ===== src/Rollout.antt =====
-- Staged updates of the managed computers: apps/api/src/admin/update-rollout.service.ts, and the
-- version order of apps/api/src/common/agent-contract.ts.
pub mod Version
pub mod Data
pub mod Engine
pub mod Heartbeat
pub mod Dispatch
pub mod Tick
pub mod Operate
pub mod Plan
mod Tests
