-- ===== src/Api/Tokens.antt =====
-- The actions on refresh tokens, on sessions and on the counter of failed logins.
use hotel_crm.Prelude.{refl, String, Bool, Option, none, some, arith, leb}
use hotel_crm.Platform.{Platform, World, now, draw}
use hotel_crm.Platform.Moves.{Moves, >>=-Moves, pure-Moves, throw-Moves, if-Moves}
use hotel_crm.Platform.Results.{unauthorized}
use hotel_crm.Platform.JsonWebToken.{Claims}
use hotel_crm.RefreshToken.Repository.{
  find_by_hash, claim, ConsumedRefreshToken, StoredRefreshToken,
}
use hotel_crm.RefreshToken.Repository
use hotel_crm.RefreshToken.Effects.{step, finds, claims, revokes}
use hotel_crm.RefreshToken.Service.{
  start_family, consume, verify, try_verify, or_invalid, unexpired, settle, revoke_session,
  end_session, end_family, hash, invalid_refresh_token,
}
use hotel_crm.LoginThrottle.Counter.{
  LoginAttemptIdentity, increment, increment_with_ttl, start_lockout, reset_ttl, count_attempts,
  get_count, clear, delete,
}
use hotel_crm.LoginThrottle.Service.{
  assert_not_locked, refuse_locked, record_failure, lock_out, reset,
}
use hotel_crm.Api.Covers.{Covers, idle-Moves}

module _ {U T R K : Type 0} (p : Platform U T R K) {current : Option String}
    {Rel : World U T R → World U T R → Type 0} (covers : Covers p current Rel) where
  pub now-Moves : Moves Rel (now p)
  now-Moves = idle-Moves p covers λ w. (refl, refl, omega arith)

  pub draw-Moves : Moves Rel (draw p)
  draw-Moves = idle-Moves p covers λ w. (refl, refl, omega arith)

  find_by_hash-Moves : (tenant h : String) → Moves Rel (find_by_hash p tenant h)
  unfolding step
  find_by_hash-Moves tenant h = record { moved = λ w. covers.tokens (finds tenant h) w tt }

  claim-Moves : (tenant id : String) → Moves Rel (claim p tenant id)
  unfolding step
  claim-Moves tenant id = record { moved = λ w. covers.tokens (claims tenant id) w tt }

  pub revoke_family-Moves : (tenant id : String) → Moves Rel (Repository.revoke_family p tenant id)
  unfolding step
  revoke_family-Moves tenant id = record { moved = λ w. covers.tokens (revokes tenant id) w tt }

  pub start_family-Moves : Moves Rel (start_family p)
  unfolding start_family
  start_family-Moves = draw-Moves

  try_verify-Moves : (raw : K) → Moves Rel (try_verify p raw)
  unfolding try_verify
  try_verify-Moves raw = idle-Moves p covers λ w. (refl, refl, omega arith)

  or_invalid-Moves : {A : Type 0} (o : Option A) → Moves Rel (or_invalid p o)
  unfolding or_invalid
  or_invalid-Moves none = throw-Moves covers.order _
  or_invalid-Moves (some a) = pure-Moves covers.order _

  unexpired-Moves : (o : Option StoredRefreshToken) → Moves Rel (unexpired p o)
  unfolding unexpired
  unexpired-Moves none = throw-Moves covers.order _
  unexpired-Moves (some stored) = >>=-Moves covers.order now-Moves λ at.
      if-Moves covers.order (leb stored.expires_at at)
        (throw-Moves covers.order (unauthorized invalid_refresh_token))
        (pure-Moves covers.order stored)

  settle-Moves :
      (tenant : String) (stored : StoredRefreshToken) (claimed : Bool)
      → Moves Rel (settle p tenant stored claimed)
  unfolding settle
  settle-Moves tenant stored claimed =
      if-Moves covers.order claimed
        (pure-Moves covers.order
          (record { user_id = stored.user_id; tenant_id = tenant; family_id = stored.family_id }))
        (>>=-Moves covers.order (revoke_family-Moves tenant stored.family_id)
          λ _. throw-Moves covers.order (unauthorized invalid_refresh_token))

  pub consume-Moves : (raw : K) → Moves Rel (consume p raw)
  unfolding consume verify
  consume-Moves raw =
      >>=-Moves covers.order (>>=-Moves covers.order (try_verify-Moves raw) or_invalid-Moves)
        λ payload.
          >>=-Moves covers.order (find_by_hash-Moves payload.tenant_id (hash p raw)) λ found.
            >>=-Moves covers.order (unexpired-Moves found) λ stored.
              >>=-Moves covers.order (claim-Moves payload.tenant_id stored.id)
                λ claimed. settle-Moves payload.tenant_id stored claimed

  end_family-Moves :
      (tenant : String) (o : Option StoredRefreshToken) → Moves Rel (end_family p tenant o)
  unfolding end_family
  end_family-Moves tenant none = pure-Moves covers.order tt
  end_family-Moves tenant (some stored) = revoke_family-Moves tenant stored.family_id

  end_session-Moves : (raw : K) (o : Option Claims) → Moves Rel (end_session p raw o)
  unfolding end_session
  end_session-Moves raw none = pure-Moves covers.order tt
  end_session-Moves raw (some payload) =
      >>=-Moves covers.order (find_by_hash-Moves payload.tenant_id (hash p raw))
        λ found. end_family-Moves payload.tenant_id found

  pub revoke_session-Moves : (raw : K) → Moves Rel (revoke_session p raw)
  unfolding revoke_session
  revoke_session-Moves raw = >>=-Moves covers.order (try_verify-Moves raw) (end_session-Moves raw)

  pub assert_not_locked-Moves : (i : LoginAttemptIdentity) → Moves Rel (assert_not_locked p i)
  unfolding assert_not_locked count_attempts get_count refuse_locked
  assert_not_locked-Moves i = idle-Moves p covers λ w. ground arith

  pub record_failure-Moves : (i : LoginAttemptIdentity) → Moves Rel (record_failure p i)
  unfolding record_failure increment increment_with_ttl lock_out start_lockout reset_ttl
  record_failure-Moves i = idle-Moves p covers λ w. ground arith

  pub reset-Moves : (i : LoginAttemptIdentity) → Moves Rel (reset p i)
  unfolding reset clear delete
  reset-Moves i = idle-Moves p covers λ w. (refl, refl, omega arith)
