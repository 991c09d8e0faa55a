-- ===== src/Auth.antt =====
-- packages/automated_actions/automated_actions/auth.py: authentication and authorization.
pub mod NextUrl
pub mod Request
pub mod Oidc
pub mod Bearer
pub mod Opa
pub mod Startup
pub mod Untouched
