-- ===== src/Config.antt =====
-- backend/src/config/env.validation.ts: the variables that the running application reads, once
-- they are coerced and defaulted.
pub mod Schemas
pub mod Validation
pub mod Startup
use hotel_crm.Prelude.{ℕ, String}

pub record Env : Type 0 where
  pub jwt_secret : String
  pub jwt_expires_in : String
  pub jwt_refresh_secret : String
  pub jwt_refresh_expires_in : String
  pub login_max_attempts : ℕ
  pub login_lockout_seconds : ℕ
