-- ===== src/Users.antt =====
-- backend/src/users/: the repository over the table `users`, the rules of the service, and the
-- proofs about both.
pub mod Types
pub mod Repository
pub mod Service
pub mod Rows
pub mod Update
pub mod Admins
pub mod Own
mod Order
pub mod Pages
pub mod Written
pub mod Created
pub mod Effects
pub mod Idle
pub mod Remain
pub mod Isolation
pub mod Listed
