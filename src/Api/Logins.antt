-- ===== src/Api/Logins.antt =====
-- The services of sessions.
use hotel_crm.Prelude.{refl, arith, String, not, Option, none, some}
use hotel_crm.Schema.{UserRow}
use hotel_crm.Platform.{Platform, World}
use hotel_crm.Platform.Moves.{Moves, >>=-Moves, pure-Moves, throw-Moves, if-Moves}
use hotel_crm.Platform.Results.{unauthorized}
use hotel_crm.Tenant.{require_tenant_id}
use hotel_crm.Users.Types.{PublicUser, public_user}
use hotel_crm.Users.Effects.{finds_email, step, find_by_id_in_tenant-world}
use hotel_crm.Users.Repository
use hotel_crm.Users.Repository.{find_by_id_in_tenant, find_by_email_with_secret}
use hotel_crm.Users.Idle.{step-IsRead}
use hotel_crm.RefreshToken.Service.{TokenSubject, issue, revoke_family}
use hotel_crm.RefreshToken.Repository.{ConsumedRefreshToken}
use hotel_crm.LoginThrottle.Counter.{LoginAttemptIdentity}
use hotel_crm.Auth.Sessions.{
  LoginDto, LoginResult, login, authenticate, accept, reject, identity_of, issue_session,
  sign_access_token, subject_of, profile_of, logout, refresh, renew, close, invalid_credentials,
}
use hotel_crm.Api.Covers.{Covers, read-Moves, idle-Moves}
use hotel_crm.Api.Tokens.{
  start_family-Moves, consume-Moves, revoke_session-Moves, revoke_family-Moves,
  assert_not_locked-Moves, record_failure-Moves, reset-Moves,
}

module _ {U T R K : Type 0} (p : Platform U T R K) {current : Option String}
    {Rel : World U T R → World U T R → Type 0} (covers : Covers p current Rel) where
  sign_access_token-Moves : (subject : TokenSubject) → Moves Rel (sign_access_token p subject)
  unfolding sign_access_token
  sign_access_token-Moves subject = idle-Moves p covers λ w. (refl, refl, omega arith)

  issue-Moves : (subject : TokenSubject) (f : String) → Moves Rel (issue p subject f)
  issue-Moves subject f = record { moved = covers.issues subject f }

  issue_session-Moves :
      (subject : TokenSubject) (f : String) → Moves Rel (issue_session p subject f)
  unfolding issue_session
  issue_session-Moves subject f =
      >>=-Moves covers.order (sign_access_token-Moves subject) λ access_token.
        >>=-Moves covers.order (issue-Moves subject f) λ refresh_token.
          pure-Moves covers.order
            (record { access_token = access_token; refresh_token = refresh_token })

  close-Moves : (c : ConsumedRefreshToken) → Moves Rel (close p c)
  unfolding close revoke_family
  close-Moves c =
      >>=-Moves covers.order (revoke_family-Moves p covers c.tenant_id c.family_id)
        λ _. throw-Moves covers.order (unauthorized "Invalid refresh token")

  pub renew-Moves : (c : ConsumedRefreshToken) (o : Option PublicUser) → Moves Rel (renew p c o)
  unfolding renew
  renew-Moves c none = close-Moves c
  renew-Moves c (some user) =
      if-Moves covers.order (not user.is_active) (close-Moves c)
        (issue_session-Moves (subject_of user) c.family_id)

  pub find_by_id_in_tenant-Moves :
      (id tenant : String) → Moves Rel (find_by_id_in_tenant p id tenant)
  find_by_id_in_tenant-Moves id tenant =
      read-Moves p covers (find_by_id_in_tenant-world p id tenant)

  pub refresh-Moves : (raw : K) → Moves Rel (refresh p raw)
  unfolding refresh
  refresh-Moves raw =
      >>=-Moves covers.order (consume-Moves p covers raw) λ c.
        >>=-Moves covers.order (find_by_id_in_tenant-Moves c.user_id c.tenant_id) (renew-Moves c)

  pub logout-Moves : (raw : K) → Moves Rel (logout p raw)
  unfolding logout
  logout-Moves raw = revoke_session-Moves p covers raw

  reject-Moves : (i : LoginAttemptIdentity) → Moves {A = LoginResult K} Rel (reject p i)
  unfolding reject
  reject-Moves i =
      >>=-Moves covers.order (record_failure-Moves p covers i)
        λ _. throw-Moves covers.order (unauthorized invalid_credentials)

  require_tenant_id-Moves : (o : Option String) → Moves Rel (require_tenant_id o)
  unfolding require_tenant_id
  require_tenant_id-Moves none = throw-Moves covers.order _
  require_tenant_id-Moves (some u) = idle-Moves p covers λ w. ground arith

  mark-Moves : (user : UserRow) → Moves Rel (Repository.mark_logged_in p current user.id)
  unfolding step
  mark-Moves user = record { moved = λ w. covers.marks user.id w }

  accept-Moves : (i : LoginAttemptIdentity) (user : UserRow) → Moves Rel (accept p current i user)
  unfolding accept
  accept-Moves i user = >>=-Moves covers.order (reset-Moves p covers i) λ _.
      >>=-Moves covers.order (mark-Moves user) λ _.
        >>=-Moves covers.order (start_family-Moves p covers) λ f.
          >>=-Moves covers.order (issue_session-Moves (subject_of (public_user user)) f)
            λ tokens. pure-Moves covers.order (record { tokens = tokens; user = profile_of user })

  authenticate-Moves :
      (i : LoginAttemptIdentity) (password : String) (o : Option UserRow)
      → Moves Rel (authenticate p current i password o)
  unfolding authenticate
  authenticate-Moves i password none = reject-Moves i
  authenticate-Moves i password (some user) =
      if-Moves covers.order (not user.is_active) (reject-Moves i) (
        if-Moves covers.order (not (p.bcrypt_compare password user.password_hash)) (reject-Moves i)
          (accept-Moves i user))

  find-Moves : (email : String) → Moves Rel (find_by_email_with_secret p current email)
  unfolding step
  find-Moves email = read-Moves p covers λ w. step-IsRead p (finds_email current email) w tt

  pub login-Moves : (dto : LoginDto) (ip : String) → Moves Rel (login p current dto ip)
  unfolding login
  login-Moves dto ip = >>=-Moves covers.order (require_tenant_id-Moves current) λ tenant.
      >>=-Moves covers.order (assert_not_locked-Moves p covers (identity_of p tenant dto ip)) λ _.
        >>=-Moves covers.order (find-Moves dto.email)
          (authenticate-Moves (identity_of p tenant dto ip) dto.password)
