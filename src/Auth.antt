-- ===== src/Auth.antt =====
-- Who a request comes from: apps/api/src/auth.
pub mod Revocation
pub mod StepUp
pub mod Jwt
pub mod SignIn
pub mod ApiKeys
mod Tests
