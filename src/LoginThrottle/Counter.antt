-- ===== src/LoginThrottle/Counter.antt =====
-- backend/src/redis/redis.service.ts, the operations on a counter, and
-- backend/src/auth/login-attempts.repository.ts. A connection that fails is not modelled.
use hotel_crm.Prelude.{ℕ, String, Option, none, some, List, [], ◌∷◌}
use hotel_crm.Platform.{Platform, World, now}
use hotel_crm.Platform.Results.{Action, ok, ◌>>=◌}
use hotel_crm.Platform.RedisServer.{Reply, incr, expire_nx, number, nothing}
use mathlib.Core.Option
use Prim.Native.String.{◌++◌}

-- backend/src/auth/types/login-attempt.types.ts
pub record LoginAttemptIdentity : Type 0 where
  pub tenant_id : String
  pub email : String
  pub ip : String

-- `results?.[0]?.[1]`, where it is a number.
abbrev pub incremented_to : Option (List Reply) → ℕ
incremented_to none = 0
incremented_to (some []) = 0
incremented_to (some (number n ∷ _)) = n
incremented_to (some (nothing ∷ _)) = 0

module _ {U T R K : Type 0} (p : Platform U T R K) where
  unfoldable pub increment_with_ttl : String → ℕ → Action (World U T R) ℕ
  increment_with_ttl key ttl_seconds = do
    at ← now p
    λ w.
        let (results, r) = p.redis.exec at (incr key ∷ expire_nx key ttl_seconds ∷ []) w.redis in
        (ok (incremented_to results), record w { redis = r })

  unfoldable pub get_count : String → Action (World U T R) ℕ
  get_count key = do at ← now p; λ w. (ok (Option.get_or (p.redis.get at key w.redis) 0), w)

  unfoldable pub reset_ttl : String → ℕ → Action (World U T R) (Unit {0})
  reset_ttl key ttl_seconds = do
    at ← now p
    λ w. (ok tt, record w { redis = p.redis.expire at key ttl_seconds w.redis })

  unfoldable pub delete : String → Action (World U T R) (Unit {0})
  delete key w = (ok tt, record w { redis = p.redis.del key w.redis })

  unfoldable pub key_for : LoginAttemptIdentity → String
  key_for identity =
      "login-attempts:"
      ++ identity.tenant_id
      ++ ":"
      ++ p.lowercase identity.email
      ++ ":"
      ++ identity.ip

  unfoldable pub count_attempts : LoginAttemptIdentity → Action (World U T R) ℕ
  count_attempts identity = get_count (key_for identity)

  unfoldable pub increment : LoginAttemptIdentity → ℕ → Action (World U T R) ℕ
  increment identity window_seconds = increment_with_ttl (key_for identity) window_seconds

  unfoldable pub start_lockout : LoginAttemptIdentity → ℕ → Action (World U T R) (Unit {0})
  start_lockout identity lockout_seconds = reset_ttl (key_for identity) lockout_seconds

  unfoldable pub clear : LoginAttemptIdentity → Action (World U T R) (Unit {0})
  clear identity = delete (key_for identity)
