-- ===== src/Auth/Guards.antt =====
-- backend/src/auth/guards/ and backend/src/auth/strategies/jwt.strategy.ts, in the order in which
-- backend/src/app.module.ts registers them.
use hotel_crm.Prelude.{
  ℕ, ◌≡◌, String, Bool, true, false, ◌&&◌, ◌||◌, Option, none, some, List, [], ◌∷◌, str_eq,
  if◌then◌else◌,
}
use mathlib.Core.Option
use hotel_crm.Platform.Results.{Outcome, ok, err, bad_request, forbidden, unauthorized}
use hotel_crm.Platform.JsonWebToken.{Claims, Jwt}

pub record AuthenticatedUser : Type 0 where
  pub user_id : String
  pub email : Option String
  pub tenant_id : String
  pub role : Option String
  pub permissions : List String

-- What the guards read of a request: the bearer token, the tenant that TenantMiddleware set, and
-- `req.user`.
pub record Request (K : Type 0) : Type 0 where
  pub bearer : Option K
  pub tenant_id : Option String
  pub user : Option AuthenticatedUser

-- The metadata of a route's decorators @Public and @RequirePermissions.
pub record Route : Type 0 where
  pub is_public : Bool
  pub required : Option (List String)

-- `JwtStrategy.validate`
unfoldable pub validate : Claims → AuthenticatedUser
validate payload = record {
  user_id = payload.sub;
  email = payload.email;
  tenant_id = payload.tenant_id;
  role = payload.role;
  permissions = Option.get_or payload.permissions [];
}

-- `AuthGuard('jwt')` of Passport under the strategy's secret: it lets a request through with what
-- `validate` makes of the claims of a bearer token that verifies, and no other.
pub record Passport {K : Type 0} (jwt : Jwt K) : Type 0 where
  pub authenticate :
      String → ℕ → (Claims → AuthenticatedUser) → Option K → Outcome AuthenticatedUser
  pub authenticate-ok :
      (secret : String) (at : ℕ) (check : Claims → AuthenticatedUser) (bearer : Option K)
      (user : AuthenticatedUser)
      → authenticate secret at check bearer ≡ ok user
      → (token : K) × (c : Claims) × (bearer ≡ some token)
        × (jwt.verify secret at token ≡ some c)
        × (user ≡ check c)
  pub authenticate_total :
      (secret : String) (at : ℕ) (check : Claims → AuthenticatedUser) (token : K) (c : Claims)
      → jwt.verify secret at token ≡ some c
      → authenticate secret at check (some token) ≡ ok (check c)
  pub authenticate_refused :
      (secret : String) (at : ℕ) (check : Claims → AuthenticatedUser) (bearer : Option K)
      → ((token : K) → bearer ≡ some token → jwt.verify secret at token ≡ none)
      → authenticate secret at check bearer ≡ err (unauthorized "Unauthorized")

abbrev pub missing_tenant_header : String
missing_tenant_header =
    "Missing tenant context: the x-tenant-id header is required for this request."

abbrev pub tenant_mismatch : String
tenant_mismatch = "Tenant mismatch: this token is not valid for the requested tenant."

unfoldable pub match_tenant : Option String → String → Outcome (Unit {0})
match_tenant none tenant_id = err (bad_request missing_tenant_header)
match_tenant (some header) tenant_id =
    if str_eq header ""
    then err (bad_request missing_tenant_header)
    else (if str_eq header tenant_id then ok tt else err (forbidden tenant_mismatch))

abbrev pub includes : List String → String → Bool
includes [] p = false
includes (x ∷ xs) p = str_eq x p || includes xs p

abbrev pub every : (String → Bool) → List String → Bool
every f [] = true
every f (p ∷ ps) = f p && every f ps

abbrev pub is_admin : Option String → Bool
is_admin none = false
is_admin (some role) = str_eq role "admin"

unfoldable pub check_permissions : List String → Option AuthenticatedUser → Outcome (Unit {0})
check_permissions required none = err (forbidden "No authenticated user")
check_permissions required (some user) =
    if is_admin user.role
    then ok tt
    else (if every (includes user.permissions) required
        then ok tt
        else err (forbidden "Insufficient permissions"))

abbrev pub bind : {A B : Type 0} → Outcome A → (A → Outcome B) → Outcome B
bind (ok a) f = f a
bind (err e) f = err e

module _ {K : Type 0} where
  unfoldable pub tenant_guard : Route → Request K → Outcome (Unit {0})
  unfolding match_tenant
  tenant_guard route req =
      if route.is_public
      then ok tt
      else elim req.user [ none ↦ ok tt | some user ↦ match_tenant req.tenant_id user.tenant_id ]

  unfoldable pub permissions_guard : Route → Request K → Outcome (Unit {0})
  unfolding check_permissions
  permissions_guard route req = elim route.required [
    | none ↦ ok tt
    | some [] ↦ ok tt
    | some (p ∷ ps) ↦ check_permissions (p ∷ ps) req.user
  ]

  abbrev attached : Request K → Outcome AuthenticatedUser → Outcome (Request K)
  attached req (ok user) = ok (record req { user = some user })
  attached req (err e) = err e

  module _ {jwt : Jwt K} (passport : Passport jwt) (secret : String) (at : ℕ) where
    unfoldable pub jwt_auth_guard : Route → Request K → Outcome (Request K)
    unfolding validate
    jwt_auth_guard route req =
        if route.is_public
        then ok req
        else attached req (passport.authenticate secret at validate req.bearer)

    -- The request that reaches the handler, or the first guard's exception.
    unfoldable pub activate : Route → Request K → Outcome (Request K)
    unfolding jwt_auth_guard tenant_guard permissions_guard
    activate route req =
        bind (jwt_auth_guard route req) λ seen.
          bind (tenant_guard route seen) λ _. bind (permissions_guard route seen) λ _. ok seen
