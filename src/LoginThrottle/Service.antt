-- ===== src/LoginThrottle/Service.antt =====
-- backend/src/auth/login-throttle.service.ts. Its log line is in Logging/Lines.
use hotel_crm.Prelude.{ℕ, String, leb, ltb, if◌then◌else◌}
use hotel_crm.Platform.{Platform, World}
use hotel_crm.Platform.Results.{Action, pure, throw, too_many_requests, ◌>>=◌}
use hotel_crm.LoginThrottle.Counter.{
  LoginAttemptIdentity, count_attempts, increment, start_lockout, clear,
}

abbrev pub locked_message : String
locked_message = "Too many failed login attempts. Try again in a few minutes."

module _ {U T R K : Type 0} (p : Platform U T R K) where
  -- The getters of the settings.
  abbrev pub max_attempts : ℕ
  max_attempts = p.env.login_max_attempts

  abbrev pub lockout_seconds : ℕ
  lockout_seconds = p.env.login_lockout_seconds

  unfoldable pub refuse_locked : ℕ → Action (World U T R) (Unit {0})
  refuse_locked failures =
      if leb max_attempts failures then throw (too_many_requests locked_message) else pure tt

  unfoldable pub assert_not_locked : LoginAttemptIdentity → Action (World U T R) (Unit {0})
  unfolding refuse_locked
  assert_not_locked identity = do failures ← count_attempts p identity; refuse_locked failures

  unfoldable pub lock_out : LoginAttemptIdentity → ℕ → Action (World U T R) (Unit {0})
  lock_out identity failures =
      if ltb failures max_attempts then pure tt else start_lockout p identity lockout_seconds

  unfoldable pub record_failure : LoginAttemptIdentity → Action (World U T R) (Unit {0})
  unfolding lock_out
  record_failure identity = do
    failures ← increment p identity lockout_seconds
    lock_out identity failures

  unfoldable pub reset : LoginAttemptIdentity → Action (World U T R) (Unit {0})
  reset identity = clear p identity
