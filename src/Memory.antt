-- ===== src/Memory.antt =====
-- A platform that keeps its tables in lists: the laws of the platform can be met, and the
-- theorems are run on it.
mod Sorting
mod Rows
mod Order
pub mod Server
pub mod Bearer
pub mod Requests
pub mod Values
pub mod Transform
pub mod Seeding
