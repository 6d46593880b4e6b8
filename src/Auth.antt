-- ===== src/Auth.antt =====
-- backend/src/auth/, apart from refresh tokens and the login throttle.
pub mod Permissions
pub mod Guards
pub mod Access
pub mod Refusals
pub mod Sessions
pub mod Login
pub mod Credentials
pub mod Fresh
