-- ===== src/Tests.antt =====
-- Runs on the platform in memory.
mod Worlds
mod Tokens
mod Sessions
mod Throttle
mod Access
mod Admins
mod Errors
mod Pages
mod Created
mod Requests
mod Accounts
mod Served
mod Bodies
mod Ended
mod Masks
mod Fresh
mod Seeding
mod Startup
