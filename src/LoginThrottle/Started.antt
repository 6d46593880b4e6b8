-- ===== src/LoginThrottle/Started.antt =====
-- The throttle of an application that has started.
use hotel_crm.Prelude.{◌≡◌, ◌≤◌, String, Option}
use hotel_crm.Config.Validation.{Zod, validate_env}
use hotel_crm.Config.Startup.{validate_env-IsStartable}
use hotel_crm.Platform.{Platform, World}
use hotel_crm.Platform.Results.{ok}
use hotel_crm.LoginThrottle.Counter.{LoginAttemptIdentity}
use hotel_crm.LoginThrottle.Service.{assert_not_locked, reset}
use hotel_crm.LoginThrottle.Lockout.{assert_not_locked-reset}

-- If the environment of the process passes the check at the start, both secrets have sixteen
-- characters at least, and after a reset the next attempt of an account passes the throttle,
-- whatever was counted before.
pub validate_env-reset :
    {U T R K : Type 0} (p : Platform U T R K) (z : Zod) (raw : String → Option String)
    (i : LoginAttemptIdentity) (w : World U T R)
    → validate_env z raw ≡ ok p.env
    → (16 ≤ z.length p.env.jwt_secret)
      × (16 ≤ z.length p.env.jwt_refresh_secret)
      × ((assert_not_locked p i (reset p i w).1).0 ≡ ok tt)
validate_env-reset p z raw i w h =
    let sound = validate_env-IsStartable z raw p.env h in
    (sound.long_secret, sound.long_refresh_secret, assert_not_locked-reset p i w sound.some_attempt)
