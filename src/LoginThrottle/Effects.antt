-- ===== src/LoginThrottle/Effects.antt =====
-- What the operations of the throttle do to the entries of the Redis server.
use hotel_crm.Prelude.{
  ℕ, ◌+◌, ◌*◌, ◌<◌, ◌≤◌, ◌≡◌, ◌∙◌, String, Option, none, some, arith, leb, ltb, if◌then◌else◌,
  str_eq, str_eq-true, Bool-cases, inl, inr, [], ◌∷◌,
}
use mathlib.Core.Option
use hotel_crm.Platform.{Platform, World}
use hotel_crm.Platform.Results.{ok, err, too_many_requests}
use hotel_crm.Platform.RedisServer.{
  Entry, live, incremented, expiring_nx, expiring, incr, expire_nx,
}
use hotel_crm.LoginThrottle.Counter.{
  LoginAttemptIdentity, key_for, increment, increment_with_ttl, start_lockout, reset_ttl,
  count_attempts, get_count, clear, delete,
}
use hotel_crm.LoginThrottle.Service.{
  assert_not_locked, refuse_locked, record_failure, lock_out, reset, locked_message,
}

module _ {U T R K : Type 0} (p : Platform U T R K) where
  abbrev pub entry_of : World U T R → String → Option Entry
  entry_of w key = p.redis.entries w.redis key

  -- The failures that a reading of the counter sees at a time.
  abbrev pub seen : ℕ → Option Entry → ℕ
  seen at e = Option.get_or (Option.map (λ x. x.value) (live at e)) 0

  pub assert_not_locked_lem :
      (i : LoginAttemptIdentity) (w : World U T R)
      → (assert_not_locked p i w).0 ≡ (
          if leb p.env.login_max_attempts (seen (p.clock w.reads) (entry_of w (key_for p i)))
          then err (too_many_requests locked_message)
          else ok tt)
  unfolding assert_not_locked count_attempts get_count refuse_locked
  assert_not_locked_lem i w =
      rw (p.redis.get_lem (p.clock w.reads) (key_for p i) w.redis) (ground arith)

  abbrev pub incremented_entry : LoginAttemptIdentity → World U T R → Entry
  incremented_entry i w = incremented (live (p.clock w.reads) (entry_of w (key_for p i)))

  abbrev pub incremented_world : LoginAttemptIdentity → World U T R → World U T R
  incremented_world i w = record w {
    reads = w.reads + 1;
    redis =
        (p.redis.exec (p.clock w.reads)
          (incr (key_for p i) ∷ expire_nx (key_for p i) p.env.login_lockout_seconds ∷ [])
          w.redis).1;
  }

  increment_lem :
      (i : LoginAttemptIdentity) (w : World U T R)
      → increment p i p.env.login_lockout_seconds w
        ≡ (ok (incremented_entry i w).value, incremented_world i w)
  unfolding increment increment_with_ttl
  increment_lem i w =
      let (_, e) =
        p.redis.exec-incr_expire_nx (p.clock w.reads) (key_for p i) p.env.login_lockout_seconds
          w.redis in
      rw e

  -- Below the limit a failure is counted; at the limit the account is locked for the whole time.
  pub record_failure-below :
      (i : LoginAttemptIdentity) (w : World U T R)
      → (incremented_entry i w).value < p.env.login_max_attempts
      → record_failure p i w ≡ (ok tt, incremented_world i w)
  unfolding record_failure lock_out
  record_failure-below i w h = rw (increment_lem i w) (ground arith)

  pub record_failure-limit :
      (i : LoginAttemptIdentity) (w : World U T R)
      → p.env.login_max_attempts ≤ (incremented_entry i w).value
      → record_failure p i w ≡ start_lockout p i p.env.login_lockout_seconds (incremented_world i w)
  unfolding record_failure lock_out
  record_failure-limit i w h = rw (increment_lem i w) (ground arith)

  pub entry-increment :
      (i : LoginAttemptIdentity) (w : World U T R) (k : String)
      → 0 < p.env.login_lockout_seconds
      → entry_of (incremented_world i w) k ≡ (
          if str_eq (key_for p i) k
          then some (
              expiring_nx
                (p.clock w.reads + p.env.login_lockout_seconds * 1000)
                (incremented_entry i w))
          else entry_of w k)
  entry-increment i w k h =
      p.redis.entries-incr_expire_nx (p.clock w.reads) (key_for p i) p.env.login_lockout_seconds
        w.redis k h

  pub entry-start_lockout :
      (i : LoginAttemptIdentity) (w : World U T R) (k : String)
      → 0 < p.env.login_lockout_seconds
      → entry_of (start_lockout p i p.env.login_lockout_seconds w).1 k ≡ (
          if str_eq (key_for p i) k
          then expiring
              (p.clock w.reads + p.env.login_lockout_seconds * 1000)
              (live (p.clock w.reads) (entry_of w k))
          else entry_of w k)
  unfolding start_lockout reset_ttl
  entry-start_lockout i w k h = elim (Bool-cases (str_eq (key_for p i) k)) [
    | inl e ↦
        p.redis.entries-expire (p.clock w.reads) (key_for p i) p.env.login_lockout_seconds w.redis k
          h
        ∙ rw (e, str_eq-true _ _ e)
    | inr e ↦
        p.redis.entries-expire (p.clock w.reads) (key_for p i) p.env.login_lockout_seconds w.redis k
          h
        ∙ rw e
  ]

  pub entry-reset :
      (i : LoginAttemptIdentity) (w : World U T R) (k : String)
      → entry_of (reset p i w).1 k ≡ (if str_eq (key_for p i) k then none else entry_of w k)
  unfolding reset clear delete
  entry-reset i w k = p.redis.entries-del (key_for p i) w.redis k

  pub record_failure-ok :
      (i : LoginAttemptIdentity) (w : World U T R) → (record_failure p i w).0 ≡ ok tt
  unfolding start_lockout reset_ttl
  record_failure-ok i w =
      elim (Bool-cases (ltb (incremented_entry i w).value p.env.login_max_attempts)) [
        | inl e ↦ rw (record_failure-below i w (ground arith))
        | inr e ↦ rw (record_failure-limit i w (ground arith))
      ]
