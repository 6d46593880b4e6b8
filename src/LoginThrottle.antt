-- ===== src/LoginThrottle.antt =====
-- backend/src/auth/login-throttle.service.ts and the Redis counter that it keeps.
pub mod Counter
pub mod Service
pub mod Effects
pub mod Lockout
pub mod Separate
pub mod Started
