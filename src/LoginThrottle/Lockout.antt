-- ===== src/LoginThrottle/Lockout.antt =====
-- When an account is locked, and for how long.
use hotel_crm.Prelude.{
  ℕ, zero, suc, ◌+◌, ◌*◌, ◌<◌, ◌≤◌, ◌≡◌, ◌≢◌, refl, ap, subst, ◌∙◌, none, some, arith, ltb,
  if◌then◌else◌, str_eq_refl, Bool-cases, inl, inr,
}
use hotel_crm.Platform.{Platform, World}
use hotel_crm.Platform.Results.{ok, err, too_many_requests, Action, pure, ◌>>◌}
use hotel_crm.Platform.RedisServer.{Entry, live, expiring_nx}
use hotel_crm.LoginThrottle.Counter.{LoginAttemptIdentity, key_for, start_lockout, reset_ttl}
use hotel_crm.LoginThrottle.Service.{assert_not_locked, record_failure, reset, locked_message}
use hotel_crm.LoginThrottle.Effects.{
  entry_of, seen, assert_not_locked_lem, incremented_entry, incremented_world, record_failure-below,
  record_failure-limit, entry-increment, entry-start_lockout, entry-reset,
}

module _ {U T R K : Type 0} (p : Platform U T R K) (i : LoginAttemptIdentity) where
  -- Failed logins of one account in a row.
  unfoldable pub failures : ℕ → Action (World U T R) (Unit {0})
  failures zero = pure tt
  failures (suc n) = record_failure p i >> failures n

  abbrev lockout_ms : ℕ
  lockout_ms = p.env.login_lockout_seconds * 1000

  -- `n` failures are counted, and the count does not expire before the `last` reading of the clock.
  Counted : ℕ → ℕ → World U T R → Type 0
  Counted last zero w = entry_of p w (key_for p i) ≡ none
  Counted last (suc n) w =
      (e : ℕ) × (entry_of p w (key_for p i) ≡ some (record { value = suc n; expires_at = some e }))
      × ((k : ℕ) → k ≤ last → p.clock k < e)

  Counted-seen :
      (last n : ℕ) (w : World U T R)
      → Counted last n w
      → w.reads ≤ last
      → seen p (p.clock w.reads) (entry_of p w (key_for p i)) ≡ n
  unfolding Counted
  Counted-seen last zero w c h = rw c
  Counted-seen last (suc n) w (e, f, g) h = let t = g w.reads h in rw f (ground arith)

  Counted-incremented :
      (last n : ℕ) (w : World U T R)
      → Counted last n w
      → w.reads ≤ last
      → (incremented_entry p i w).value ≡ suc n
  unfolding Counted
  Counted-incremented last zero w c h = rw c
  Counted-incremented last (suc n) w (e, f, g) h = let t = g w.reads h in rw f (ground arith)

  module _ (last : ℕ) (positive : 0 < p.env.login_lockout_seconds)
      (close : (j k : ℕ) → j ≤ last → k ≤ last → p.clock j < p.clock k + lockout_ms) where
    Counted-increment :
        (n : ℕ) (w : World U T R)
        → Counted last n w
        → w.reads ≤ last
        → Counted last (suc n) (incremented_world p i w)
    unfolding Counted
    Counted-increment zero w c h = (
      p.clock w.reads + lockout_ms,
      entry-increment p i w (key_for p i) positive ∙ rw (str_eq_refl (key_for p i), c),
      λ k l. close k w.reads l h,
    )
    Counted-increment (suc n) w (e, f, g) h =
        let t = g w.reads h in
        (
          e,
          entry-increment p i w (key_for p i) positive
              ∙ rw (str_eq_refl (key_for p i), f) (ground arith),
          g,
        )

    Counted-lockout :
        (n : ℕ) (w : World U T R)
        → Counted last (suc n) w
        → w.reads ≤ last
        → Counted last (suc n) (start_lockout p i p.env.login_lockout_seconds w).1
    unfolding Counted
    Counted-lockout n w (e, f, g) h =
        let t = g w.reads h in
        (
          p.clock w.reads + lockout_ms,
          entry-start_lockout p i w (key_for p i) positive
              ∙ rw (str_eq_refl (key_for p i), f) (ground arith),
          λ k l. close k w.reads l h,
        )

    lockout_reads : (w : World U T R) → (start_lockout p i p.env.login_lockout_seconds w).0 ≡ ok tt
    unfolding start_lockout reset_ttl
    lockout_reads w = refl

    lockout_world :
        (w : World U T R) → (start_lockout p i p.env.login_lockout_seconds w).1.reads ≡ w.reads + 1
    unfolding start_lockout reset_ttl
    lockout_world w = refl

    Counted-record_failure :
        (n : ℕ) (w : World U T R)
        → Counted last n w
        → w.reads + 1 ≤ last
        → ((record_failure p i w).0 ≡ ok tt)
          × Counted last (suc n) (record_failure p i w).1
          × ((record_failure p i w).1.reads ≤ w.reads + 2)
    Counted-record_failure n w c h =
        let counted = Counted-increment n w c (omega arith) in
        let value = Counted-incremented last n w c (omega arith) in
        elim (Bool-cases (ltb (suc n) p.env.login_max_attempts)) [
          | inl e ↦ rw (record_failure-below p i w (ground arith)) (refl, counted, omega arith)
          | inr e ↦ rw (record_failure-limit p i w (ground arith)) (
            lockout_reads _,
            Counted-lockout n _ counted h,
            rw (lockout_world (incremented_world p i w)) (omega arith),
          )
        ]

    none_more : (n : ℕ) → n ≡ 0 + n
    none_more n = omega arith

    shift : (m n : ℕ) → m + suc n ≡ suc m + n
    shift m n = omega arith

    Counted-failures :
        (m n : ℕ) (w : World U T R)
        → Counted last n w
        → w.reads + 2 * m ≤ last
        → Counted last (m + n) (failures m w).1 × ((failures m w).1.reads ≤ w.reads + 2 * m)
    unfolding failures
    Counted-failures zero n w c h = (subst (λ k. Counted last k w) (none_more n) c, omega arith)
    Counted-failures (suc m) n w c h =
        let (done, counted, bound) = Counted-record_failure n w c (omega arith) in
        let v = (record_failure p i w).1 in
        let (later, reads) = Counted-failures m (suc n) v counted (omega arith) in
        let pair : record_failure p i w ≡ (ok tt, v) = ap (λ o. (o, v)) done in
        rw pair (subst (λ k. Counted last k (failures m v).1) (shift m n) later, omega arith)

    -- After `m` failed logins of an account that had none counted, the next attempt passes the
    -- throttle where `m` is below LOGIN_MAX_ATTEMPTS, and otherwise is refused with 429. The
    -- lockout time is positive, and the readings of the clock up to `last`, which cover the
    -- attempts, lie less than it apart.
    pub assert_not_locked-failures :
        (m : ℕ) (w : World U T R)
        → entry_of p w (key_for p i) ≡ none
        → w.reads + 2 * m ≤ last
        → (assert_not_locked p i (failures m w).1).0 ≡ (
            if ltb m p.env.login_max_attempts
            then ok tt
            else err (too_many_requests locked_message))
    unfolding Counted
    assert_not_locked-failures m w c h =
        let (counted, reads) = Counted-failures m 0 w c h in
        assert_not_locked_lem p i (failures m w).1
        ∙ rw (Counted-seen last (m + 0) (failures m w).1 counted (omega arith)) (ground arith)

  -- After a reset the next attempt passes the throttle, whatever was counted before, if
  -- LOGIN_MAX_ATTEMPTS is positive.
  pub assert_not_locked-reset :
      (w : World U T R)
      → 0 < p.env.login_max_attempts
      → (assert_not_locked p i (reset p i w).1).0 ≡ ok tt
  assert_not_locked-reset w h =
      assert_not_locked_lem p i (reset p i w).1
      ∙ rw (entry-reset p i w (key_for p i), str_eq_refl (key_for p i)) (ground arith)

  still_there : (at : ℕ) (x : Entry) → live at (some x) ≢ none → live at (some x) ≡ some x
  still_there at x h = ground arith

  -- A failure at the limit locks the account for exactly LOGIN_LOCKOUT_SECONDS from the moment at
  -- which the lockout starts, if the counter has not expired at that moment: in any later state
  -- with the same Redis entries, an attempt is refused with 429 before that time and passes from
  -- then on. The two settings are positive.
  pub record_failure-duration :
      (w v : World U T R)
      → 0 < p.env.login_lockout_seconds
      → p.env.login_max_attempts ≤ (incremented_entry p i w).value
      → 0 < p.env.login_max_attempts
      → live (p.clock (w.reads + 1)) (entry_of p (incremented_world p i w) (key_for p i)) ≢ none
      → v.redis ≡ (record_failure p i w).1.redis
      → (assert_not_locked p i v).0 ≡ (
          if ltb (p.clock v.reads) (p.clock (w.reads + 1) + lockout_ms)
          then err (too_many_requests locked_message)
          else ok tt)
  record_failure-duration w v pos limit some_attempts alive same =
      let at = p.clock (w.reads + 1) in
      let x = expiring_nx (p.clock w.reads + lockout_ms) (incremented_entry p i w) in
      let v1 = incremented_world p i w in
      let before : entry_of p v1 (key_for p i) ≡ some x =
        entry-increment p i w (key_for p i) pos ∙ rw (str_eq_refl (key_for p i)) in
      let alive' : live at (some x) ≡ some x = still_there at x (rw before at alive) in
      let after : entry_of p (start_lockout p i p.env.login_lockout_seconds v1).1 (key_for p i)
          ≡ some (record x { expires_at = some (at + lockout_ms) }) =
        entry-start_lockout p i v1 (key_for p i) pos
        ∙ rw (str_eq_refl (key_for p i), before, alive') in
      assert_not_locked_lem p i v
      ∙ rw (same, record_failure-limit p i w limit, after) (ground arith)
