-- ===== src/Tests/Startup.antt =====
-- An environment with which the application starts.
use hotel_crm.Prelude.{
  ℕ, suc, ◌≡◌, ◌≤◌, ◌<◌, refl, arith, String, Option, none, some, str_eq, if◌then◌else◌,
}
use hotel_crm.Config.{Env}
use hotel_crm.Config.Validation.{Zod, env_schema, validate_env}
use hotel_crm.Platform.Results.{ok}
use hotel_crm.LoginThrottle.Service.{assert_not_locked, reset}
use hotel_crm.LoginThrottle.Started.{validate_env-reset}
use hotel_crm.Tests.Throttle.{account, twice}
use hotel_crm.Memory.Server.{memory}

abbrev units : String → ℕ
units String.[] = 0
units (String.◌∷◌ c s) = suc (units s)

-- It reads the one number that the test needs.
abbrev number : String → Option ℕ
number s = if str_eq s "3" then some 3 else none

number-pos : (s : String) (n : ℕ) → number s ≡ some n → 0 < n
number-pos s n h = ground arith

abbrev zod : Zod
zod = record {
  number = number;
  number-pos = number-pos;
  number_message = λ s. "Expected number";
  length = units;
  too_short = "Too short";
  required = "Required";
  not_listed = λ s. "Invalid enum value";
}

abbrev variables : String → Option String
variables name =
    if str_eq name "DATABASE_URL"
    then some "postgresql://app@localhost/crm"
    else (if str_eq name "REDIS_URL"
        then some "redis://localhost"
        else (if str_eq name "JWT_SECRET"
            then some "access-secret-of-the-test"
            else (if str_eq name "JWT_REFRESH_SECRET"
                then some "refresh-secret-of-the-test"
                else (if str_eq name "LOGIN_MAX_ATTEMPTS" then some "3" else none))))

abbrev started : Env
started = record {
  jwt_secret = "access-secret-of-the-test";
  jwt_expires_in = "24h";
  jwt_refresh_secret = "refresh-secret-of-the-test";
  jwt_refresh_expires_in = "30d";
  login_max_attempts = 3;
  login_lockout_seconds = 900;
}

starts : validate_env zod variables ≡ ok started
unfolding validate_env env_schema
starts = refl

validate_env-reset_example :
    (16 ≤ units started.jwt_secret)
    × (16 ≤ units started.jwt_refresh_secret)
    × ((assert_not_locked
          (record memory { env = started })
          account
          (reset (record memory { env = started }) account twice).1).0
        ≡ ok tt)
validate_env-reset_example =
    validate_env-reset (record memory { env = started }) zod variables account twice starts
