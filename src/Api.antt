-- ===== src/Api.antt =====
-- backend/src/app.module.ts and the controllers: what happens to a request from its headers to the
-- reply.
pub mod Routes
pub mod Handlers
pub mod Pipeline
pub mod Covers
pub mod Steps
pub mod Footprint
mod Tokens
mod Accounts
mod Logins
pub mod Moved
pub mod Served
pub mod Kept
pub mod Admins
pub mod Ended
pub mod Once
pub mod LoggedOut
pub mod Guarded
pub mod Listed
