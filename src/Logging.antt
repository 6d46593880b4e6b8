-- ===== src/Logging.antt =====
-- backend/src/common/logging/mask-email.ts and config/logger.config.ts.
pub mod Mask
pub mod Masked
pub mod Options
pub mod Lines
