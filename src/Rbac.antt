-- ===== src/Rbac.antt =====
-- Who may do what in which business: apps/api/src/rbac.
pub mod Capability
pub mod Permission
pub mod Technician
pub mod Actor
pub mod Access
pub mod Visibility
pub mod Platform
pub mod Expiry
mod Tests
