-- ===== src/RefreshToken.antt =====
-- backend/src/auth/refresh-token*.ts: `Repository` has the transactions on the table
-- `refresh_tokens`, `Service` what the application does with them; the proofs stand below.
pub mod Repository
pub mod Service
pub mod Effects
pub mod Idle
pub mod Steps
pub mod Statements
pub mod Isolation
pub mod Unique
pub mod Revoked
pub mod Once
pub mod Reuse
pub mod LogOut
pub mod Ending
pub mod Separate
pub mod Issue
pub mod RoundTrip
pub mod Consume
