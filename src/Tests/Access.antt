-- ===== src/Tests/Access.antt =====
-- Requests that pass the guards.
use hotel_crm.Prelude.{◌≡◌, refl, false, none, some, [], ◌∷◌}
use hotel_crm.Platform.Results.{ok}
use hotel_crm.Platform.JsonWebToken.{Claims}
use hotel_crm.Auth.Guards.{
  Request, Route, validate, activate, jwt_auth_guard, tenant_guard, permissions_guard, match_tenant,
  check_permissions,
}
use hotel_crm.Auth.Access.{IsPermitted, activate-ok}
use hotel_crm.Auth.Sessions.{access_claims}
use hotel_crm.Tests.Worlds.{subject}
use hotel_crm.Memory.Bearer.{passport}
use hotel_crm.Memory.Server.{Signed, memory_jwt}

abbrev claims : Claims
claims = access_claims subject

abbrev bearer : Signed
bearer = memory_jwt.sign "access-secret" "24h" 0 claims

abbrev request : Request Signed
request = record { bearer = some bearer; tenant_id = some "t"; user = none }

abbrev route : Route
route = record { is_public = false; required = some ("guests:view" ∷ []) }

abbrev reached : Request Signed
reached = record request { user = some (validate claims) }

reaches : activate passport "access-secret" 1 route request ≡ ok reached
unfolding activate jwt_auth_guard tenant_guard permissions_guard validate match_tenant
    check_permissions
reaches = refl

activate-ok_example :
    (token : Signed) × (c : Claims) × (request.bearer ≡ some token)
    × (memory_jwt.verify "access-secret" 1 token ≡ some c)
    × (reached ≡ record request { user = some (validate c) })
    × (request.tenant_id ≡ some c.tenant_id)
    × IsPermitted route (validate c)
activate-ok_example = activate-ok passport "access-secret" 1 route request reached refl reaches
