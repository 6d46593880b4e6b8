-- ===== src/Health.antt =====
-- backend/src/health/health.service.ts and health.controller.ts, with `ping` of
-- backend/src/redis/redis.service.ts.
pub mod Check
