-- ===== src/Seed.antt =====
-- backend/prisma/seed.ts: the script that fills a development database.
pub mod Tables
pub mod Script
pub mod Hotel
mod Keys
pub mod Facts
mod Rows
mod Accounts
pub mod Again
