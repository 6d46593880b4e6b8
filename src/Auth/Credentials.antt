-- ===== src/Auth/Credentials.antt =====
-- A log-in that succeeds.
use hotel_crm.Prelude.{
  ◌+◌, ◌<◌, ◌≡◌, sym, ap, ◌∙◌, String, true, Option, some, arith, ltb, Bool-cases, Option-cases,
  inl, inr,
}
use hotel_crm.Schema.{UserRow}
use hotel_crm.Platform.{Platform, World}
use hotel_crm.Platform.Results.{ok, >>=-ok}
use hotel_crm.Users.Types.{public_user}
use hotel_crm.Users.Repository.{user_policy, has_email, mark_logged_in}
use hotel_crm.Users.Rows.{resolve, require_lem}
use hotel_crm.RefreshToken.Service.{start_family}
use hotel_crm.LoginThrottle.Counter.{LoginAttemptIdentity}
use hotel_crm.LoginThrottle.Service.{reset}
use hotel_crm.Auth.Sessions.{
  LoginDto, LoginResult, identity_of, login, authenticate, accept, profile_of, issue_session,
  subject_of,
}
use hotel_crm.Auth.Login.{attempts, checked, looked_up, login-locked, login-rejected}

module _ {U T R K : Type 0} (p : Platform U T R K) where
  accept-profile :
      (current : Option String) (i : LoginAttemptIdentity) (user : UserRow) (w w' : World U T R)
      (r : LoginResult K)
      → accept p current i user w ≡ (ok r, w')
      → r.user ≡ profile_of user
  unfolding accept
  accept-profile current i user w w' r h =
      let (_, w1, _, h1) = >>=-ok (reset p i) _ w w' r h in
      let (_, w2, _, h2) = >>=-ok (mark_logged_in p current user.id) _ w1 w' r h1 in
      let (f, w3, _, h3) = >>=-ok (start_family p) _ w2 w' r h2 in
      let (tokens, w4, _, h4) =
        >>=-ok (issue_session p (subject_of (public_user user)) f) _ w3 w' r h3 in
      ground (arith, h4)

  module _ (current s : Option String) (t ip : String) (dto : LoginDto) (w : World U T R)
      (e : resolve p current ≡ ok (t, s)) where
    pub login-accept :
        (user : UserRow)
        → attempts p current s t ip dto w e < p.env.login_max_attempts
        → p.users.find_first (user_policy s) (has_email dto.email) w.users ≡ some user
        → user.is_active ≡ true
        → p.bcrypt_compare dto.password user.password_hash ≡ true
        → login p current dto ip w
          ≡ accept p current (identity_of p t dto ip) user (record w { reads = w.reads + 1 })
    unfolding login authenticate
    login-accept user h f a b = rw (
      require_lem p current s t w e,
      checked p current s t ip dto w e h,
      looked_up p current s t ip dto w e (record w { reads = w.reads + 1 }),
      f,
      authenticate,
      a,
      b,
    )

    -- A log-in with a tenant succeeds only where fewer failures than LOGIN_MAX_ATTEMPTS are counted
    -- and the address is that of an active user under the tenant whose password is the one given;
    -- the answer describes that user.
    pub login-ok :
        (r : LoginResult K) (w' : World U T R)
        → login p current dto ip w ≡ (ok r, w')
        → (attempts p current s t ip dto w e < p.env.login_max_attempts)
          × (user : UserRow) × (p.users.find_first (user_policy s) (has_email dto.email) w.users
              ≡ some user)
          × (user.is_active ≡ true)
          × (p.bcrypt_compare dto.password user.password_hash ≡ true)
          × (r.user ≡ profile_of user)
    login-ok r w' h =
        elim (Bool-cases (ltb (attempts p current s t ip dto w e) p.env.login_max_attempts)) [
          | inr l ↦ absurd (
              cc (
                ap (λ o. o.0) (login-locked p current s t ip dto w e (ground arith)),
                ap (λ o. o.0) h,
              ))
          | inl l ↦
              let open_ : attempts p current s t ip dto w e < p.env.login_max_attempts =
                ground arith in
              let refused = login-rejected p current s t ip dto w e open_ in
              elim (Option-cases
                (p.users.find_first (user_policy s) (has_email dto.email) w.users)) [
                  | inl f ↦ absurd (cc ((refused (λ u g. absurd (cc (f, g)))).0, ap (λ o. o.0) h))
                  | inr (user, f) ↦ elim (Bool-cases user.is_active) [
                    | inr a ↦
                        absurd (
                          cc
                            ((refused (λ u g b. absurd (ground (arith, f, g)))).0, ap (λ o. o.0) h))
                    | inl a ↦ elim (Bool-cases (p.bcrypt_compare dto.password user.password_hash)) [
                      | inr b ↦
                          absurd (cc ((refused (λ u g _. ground (arith, f, g))).0, ap (λ o. o.0) h))
                      | inl b ↦ (
                        open_,
                        user,
                        f,
                        a,
                        b,
                        accept-profile current (identity_of p t dto ip) user _ w' r
                            (sym (login-accept user open_ f a b) ∙ h),
                      )
                    ]
                  ]
                ]
        ]
