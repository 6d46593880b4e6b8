-- ===== src/Auth/Sessions.antt =====
-- backend/src/auth/auth.service.ts. The two promises of `issueSession` are taken one after the
-- other, the access token first.
use hotel_crm.Prelude.{String, not, Option, none, some, List, if◌then◌else◌}
use hotel_crm.Config.{Env}
use hotel_crm.Schema.{UserRow}
use hotel_crm.Platform.{Platform, World, now}
use hotel_crm.Platform.Results.{Action, pure, throw, unauthorized, ◌>>=◌, ◌>>◌}
use hotel_crm.Platform.JsonWebToken.{Claims}
use hotel_crm.Tenant.{require_tenant_id}
use hotel_crm.Auth.Permissions.{role_name}
use hotel_crm.Users.Types.{PublicUser, public_user}
use hotel_crm.Users.Service.{find_by_email_with_secret, find_by_id_in_tenant, mark_logged_in}
use hotel_crm.RefreshToken.Repository.{ConsumedRefreshToken}
use hotel_crm.RefreshToken.Service.{
  TokenSubject, start_family, issue, consume, revoke_family, revoke_session,
}
use hotel_crm.LoginThrottle.Counter.{LoginAttemptIdentity}
use hotel_crm.LoginThrottle.Service.{assert_not_locked, record_failure, reset}

pub record LoginDto : Type 0 where
  pub email : String
  pub password : String

pub record TokenPair (K : Type 0) : Type 0 where
  pub access_token : K
  pub refresh_token : K

pub record AuthenticatedUserProfile : Type 0 where
  pub id : String
  pub email : String
  pub full_name : String
  pub role : String
  pub permissions : List String

pub record LoginResult (K : Type 0) : Type 0 where
  pub tokens : TokenPair K
  pub user : AuthenticatedUserProfile

abbrev pub invalid_credentials : String
invalid_credentials = "Invalid credentials"

abbrev pub subject_of : PublicUser → TokenSubject
subject_of user = record {
  id = user.id;
  email = user.email;
  tenant_id = user.tenant_id;
  role = role_name user.role;
  permissions = user.permissions;
}

abbrev pub profile_of : UserRow → AuthenticatedUserProfile
profile_of user = record {
  id = user.id;
  email = user.email;
  full_name = user.full_name;
  role = role_name user.role;
  permissions = user.permissions;
}

abbrev pub access_claims : TokenSubject → Claims
access_claims subject = record {
  sub = subject.id;
  tenant_id = subject.tenant_id;
  email = some subject.email;
  role = some subject.role;
  permissions = some subject.permissions;
  token_type = none;
  jti = none;
}

-- The options of JwtService: backend/src/auth/auth.module.ts.
pub record JwtModuleOptions : Type 0 where
  pub secret : String
  pub expires_in : String

abbrev pub jwt_module_options : Env → JwtModuleOptions
jwt_module_options env = record { secret = env.jwt_secret; expires_in = env.jwt_expires_in }

module _ {U T R K : Type 0} (p : Platform U T R K) where
  abbrev options : JwtModuleOptions
  options = jwt_module_options p.env

  unfoldable pub sign_access_token : TokenSubject → Action (World U T R) K
  sign_access_token subject = do
    at ← now p
    pure (p.jwt.sign options.secret options.expires_in at (access_claims subject))

  unfoldable pub issue_session : TokenSubject → String → Action (World U T R) (TokenPair K)
  issue_session subject family_id = do
    access_token ← sign_access_token subject
    refresh_token ← issue p subject family_id
    pure (record { access_token = access_token; refresh_token = refresh_token })

  unfoldable pub reject : {A : Type 0} → LoginAttemptIdentity → Action (World U T R) A
  reject identity = record_failure p identity >> throw (unauthorized invalid_credentials)

  unfoldable pub accept :
      Option String → LoginAttemptIdentity → UserRow → Action (World U T R) (LoginResult K)
  accept current identity user = do
    reset p identity
    mark_logged_in p current user.id
    family_id ← start_family p
    tokens ← issue_session (subject_of (public_user user)) family_id
    pure (record { tokens = tokens; user = profile_of user })

  unfoldable pub authenticate :
      Option String
      → LoginAttemptIdentity
      → String
      → Option UserRow
      → Action (World U T R) (LoginResult K)
  authenticate current identity password none = reject identity
  authenticate current identity password (some user) =
      if not user.is_active
      then reject identity
      else (if not (p.bcrypt_compare password user.password_hash)
          then reject identity
          else accept current identity user)

  abbrev pub identity_of : String → LoginDto → String → LoginAttemptIdentity
  identity_of tenant dto ip = record { tenant_id = tenant; email = dto.email; ip = ip }

  unfoldable pub login : Option String → LoginDto → String → Action (World U T R) (LoginResult K)
  login current dto ip = do
    tenant ← require_tenant_id current
    assert_not_locked p (identity_of tenant dto ip)
    user ← find_by_email_with_secret p current dto.email
    authenticate current (identity_of tenant dto ip) dto.password user

  unfoldable pub close : ConsumedRefreshToken → Action (World U T R) (TokenPair K)
  close consumed =
      revoke_family p consumed.tenant_id consumed.family_id
      >> throw (unauthorized "Invalid refresh token")

  unfoldable pub renew :
      ConsumedRefreshToken → Option PublicUser → Action (World U T R) (TokenPair K)
  renew consumed none = close consumed
  renew consumed (some user) =
      if not user.is_active
      then close consumed
      else issue_session (subject_of user) consumed.family_id

  unfoldable pub refresh : K → Action (World U T R) (TokenPair K)
  refresh raw = do
    consumed ← consume p raw
    user ← find_by_id_in_tenant p consumed.user_id consumed.tenant_id
    renew consumed user

  unfoldable pub logout : K → Action (World U T R) (Unit {0})
  logout raw = revoke_session p raw
