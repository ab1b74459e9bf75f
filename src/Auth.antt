-- ===== src/Auth.antt =====
-- Authentication and authorisation, internal/auth.
pub mod Rbac
mod Tests
