-- ===== src/Auth.antt =====
-- internal/auth: sessions, the sign-in by OIDC, and the role checks.
pub mod Session
pub mod Web
pub mod Provision
pub mod Manager
pub mod Callback
pub mod Rbac
pub mod Setup
