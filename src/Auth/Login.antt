-- ===== src/Auth/Login.antt =====
-- A log-in that is refused, and a session that ends with its user.
use hotel_crm.Prelude.{
  ℕ, ◌+◌, ◌<◌, ◌≤◌, ◌≡◌, refl, inl, inr, String, true, false, Option, some, arith, Bool-cases,
  Option-cases,
}
use hotel_crm.Schema.{UserRow}
use hotel_crm.Platform.{Platform, World}
use hotel_crm.Platform.Results.{ok, err, too_many_requests, unauthorized}
use hotel_crm.Tenant.{setting_of, with_tenant}
use hotel_crm.Users.Repository.{
  user_policy, has_email, has_id, find_by_email_with_secret, find_by_id_in_tenant, select_user,
}
use hotel_crm.Users.Rows.{resolve, require_lem, with_current_tenant-ok}
use hotel_crm.RefreshToken.Repository.{ConsumedRefreshToken}
use hotel_crm.RefreshToken.Service.{consume, revoke_family}
use hotel_crm.RefreshToken.Effects.{token_rows}
use hotel_crm.RefreshToken.Revoked.{AllRevoked}
use hotel_crm.RefreshToken.Reuse.{in_family, family-AllRevoked}
use hotel_crm.RefreshToken.Steps.{revoke_family_lem}
use hotel_crm.LoginThrottle.Counter.{LoginAttemptIdentity, key_for, count_attempts, get_count}
use hotel_crm.LoginThrottle.Service.{
  assert_not_locked, record_failure, refuse_locked, locked_message,
}
use hotel_crm.LoginThrottle.Effects.{entry_of, seen, assert_not_locked_lem, record_failure-ok}
use hotel_crm.Auth.Sessions.{
  LoginDto, LoginResult, invalid_credentials, identity_of, login, authenticate, reject, refresh,
  renew, close,
}

module _ {U T R K : Type 0} (p : Platform U T R K) where
  assert_world :
      (i : LoginAttemptIdentity) (w : World U T R)
      → (assert_not_locked p i w).1 ≡ record w { reads = w.reads + 1 }
  unfolding assert_not_locked count_attempts get_count refuse_locked
  assert_world i w = ground arith

  module _ (current s : Option String) (t ip : String) (dto : LoginDto) (w : World U T R)
      (e : resolve p current ≡ ok (t, s)) where
    abbrev pub attempts : ℕ
    attempts = seen p (p.clock w.reads) (entry_of p w (key_for p (identity_of p t dto ip)))

    pub checked :
        attempts < p.env.login_max_attempts
        → assert_not_locked p (identity_of p t dto ip) w ≡ (ok tt, record w { reads = w.reads + 1 })
    checked h =
        let result = assert_not_locked_lem p (identity_of p t dto ip) w in
        let world = assert_world (identity_of p t dto ip) w in ground arith

    pub looked_up :
        (v : World U T R)
        → find_by_email_with_secret p current dto.email v
          ≡ (ok (p.users.find_first (user_policy s) (has_email dto.email) v.users), v)
    unfolding find_by_email_with_secret
    looked_up v = with_current_tenant-ok p current s t _ v e

    reject_lem :
        (v : World U T R)
        → (reject p {A = LoginResult K} (identity_of p t dto ip) v) ≡ (
          err (unauthorized invalid_credentials),
          (record_failure p (identity_of p t dto ip) v).1,
        )
    unfolding reject
    reject_lem v = let done = record_failure-ok p (identity_of p t dto ip) v in ground arith

    -- While as many failures are counted as LOGIN_MAX_ATTEMPTS, a log-in with a tenant is refused
    -- with 429 whatever the password, and nothing changes but that the clock was read.
    pub login-locked :
        p.env.login_max_attempts ≤ attempts
        → login p current dto ip w
          ≡ (err (too_many_requests locked_message), record w { reads = w.reads + 1 })
    unfolding login
    login-locked h =
        let result = assert_not_locked_lem p (identity_of p t dto ip) w in
        let world = assert_world (identity_of p t dto ip) w in
        let refused : assert_not_locked p (identity_of p t dto ip) w
            ≡ (err (too_many_requests locked_message), record w { reads = w.reads + 1 }) =
          ground arith in
        rw (require_lem p current s t w e, refused)

    -- A log-in with a tenant that is not locked fails alike for an unknown address, an inactive
    -- user and a wrong password: the answer is the same 401, and the state is the one that
    -- recording the failure leaves.
    pub login-rejected :
        (attempts < p.env.login_max_attempts)
        → ((user : UserRow)
            → p.users.find_first (user_policy s) (has_email dto.email) w.users ≡ some user
            → user.is_active ≡ true
            → p.bcrypt_compare dto.password user.password_hash ≡ false)
        → ((login p current dto ip w).0 ≡ err (unauthorized invalid_credentials))
          × ((login p current dto ip w).1
              ≡ (record_failure p (identity_of p t dto ip) (record w { reads = w.reads + 1 })).1)
    unfolding login authenticate
    login-rejected h bad =
        let v : World U T R = record w { reads = w.reads + 1 } in
        elim (Option-cases (p.users.find_first (user_policy s) (has_email dto.email) w.users)) [
          | inl f ↦
              rw
                (
                  require_lem p current s t w e,
                  checked h,
                  looked_up v,
                  f,
                  authenticate,
                  reject_lem v,
                )
                (refl, refl)
          | inr (user, f) ↦ elim (Bool-cases user.is_active) [
            | inl a ↦
                rw
                  (
                    require_lem p current s t w e,
                    checked h,
                    looked_up v,
                    f,
                    authenticate,
                    a,
                    bad user f a,
                    reject_lem v,
                  )
                  (refl, refl)
            | inr a ↦
                rw
                  (
                    require_lem p current s t w e,
                    checked h,
                    looked_up v,
                    f,
                    authenticate,
                    a,
                    reject_lem v,
                  )
                  (refl, refl)
          ]
        ]

  -- A refresh whose token is good, and whose user is gone or inactive in the token's tenant, fails
  -- with 401, and no row of the token's family under the tenant is live afterwards.
  pub refresh-closed :
      (raw : K) (w w' : World U T R) (c : ConsumedRefreshToken) (s : Option String) (key : String)
      → consume p raw w ≡ (ok c, w')
      → setting_of p c.tenant_id ≡ ok s
      → p.to_uuid c.user_id ≡ ok key
      → ((user : UserRow)
          → p.users.find_first (user_policy s) (has_id key) w'.users ≡ some user
          → user.is_active ≡ false)
      → ((refresh p raw w).0 ≡ err (unauthorized "Invalid refresh token"))
        × AllRevoked (in_family s c.family_id) (token_rows p (refresh p raw w).1)
  unfolding refresh renew close revoke_family find_by_id_in_tenant with_tenant select_user
  refresh-closed raw w w' c s key h e f gone =
      elim (Option-cases (p.users.find_first (user_policy s) (has_id key) w'.users)) [
        | inl g ↦
            rw (h, e, f, g, renew, revoke_family_lem p c.tenant_id s w' e c.family_id)
              (refl, family-AllRevoked p s w' c.family_id)
        | inr (user, g) ↦
            rw (h, e, f, g, renew, gone user g, revoke_family_lem p c.tenant_id s w' e c.family_id)
              (refl, family-AllRevoked p s w' c.family_id)
      ]
