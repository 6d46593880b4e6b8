-- ===== src/Dto.antt =====
-- backend/src/users/dto/, auth/dto/ and the ValidationPipe of main.ts: what a request must contain
-- for a handler to run.
pub mod Validator
pub mod Schemas
pub mod Readers
pub mod Sound
pub mod Accepted
pub mod Pipes
pub mod Refused
pub mod Undeclared
