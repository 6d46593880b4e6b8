-- ===== src/Api/Pipeline.antt =====
-- A request from its headers to the reply: the middleware, the guards, the pipes and the handler,
-- and the envelope or the exception filter.
use hotel_crm.Prelude.{ℕ, String, Option, none, some}
use hotel_crm.Platform.{Platform, World, now}
use hotel_crm.Platform.Results.{Outcome, ok, err, Action, pure, ◌>>=◌}
use hotel_crm.Tenant.{Header, tenant_of_header}
use hotel_crm.Users.Types.{PublicUser}
use hotel_crm.Auth.Guards.{Request, Passport, activate}
use hotel_crm.Http.Envelope.{SuccessResponse, Payload, request_id_of, intercept}
use hotel_crm.Http.Errors.{ErrorResponse, catch}
use hotel_crm.Api.Routes.{Endpoint, route_of, success_status}
use hotel_crm.Api.Handlers.{Value, Pipes, piped, handle}

-- A request as it arrives; `content` is its path parameters, its query and its body.
pub record Incoming (K D : Type 0) : Type 0 where
  pub request_id : Header
  pub tenant_id : Header
  pub bearer : Option K
  pub ip : String
  pub content : D

-- The status, the x-request-id header that the middleware has set, and the body; HTTP sends no body
-- with 204. The filter's response names its own header.
pub data Reply (K : Type 0) : Type 0 where
  success : ℕ → String → SuccessResponse (Value K) PublicUser → Reply K
  failure : ErrorResponse → Reply K

module _ {U T R K D : Type 0} (p : Platform U T R K) (passport : Passport p.jwt)
    (pipes : Pipes K D) where
  abbrev pub request_of : Incoming K D → Request K
  request_of incoming = record {
    bearer = incoming.bearer;
    tenant_id = tenant_of_header incoming.tenant_id;
    user = none;
  }

  -- The guards, and then the handler.
  unfoldable pub serve :
      Endpoint → Incoming K D → Action (World U T R) (Payload (Value K) PublicUser)
  serve endpoint incoming = do
    at ← now p
    seen ← piped (activate passport p.env.jwt_secret at (route_of endpoint) (request_of incoming))
    handle p pipes endpoint seen.tenant_id seen.user incoming.ip incoming.content

  -- What was returned is wrapped, and what was thrown is caught.
  unfoldable pub respond :
      Endpoint
      → String
      → Outcome (Payload (Value K) PublicUser) × World U T R
      → Outcome (Reply K) × World U T R
  respond endpoint request_id (ok payload, w) =
      (intercept p (some request_id) payload >>= λ r.
      pure (success (success_status endpoint) request_id r))
        w
  respond endpoint request_id (err e, w) = (catch p (some request_id) e >>= λ r. pure (failure r)) w

  unfoldable pub reply : Endpoint → Incoming K D → Action (World U T R) (Reply K)
  reply endpoint incoming = do
    request_id ← request_id_of p incoming.request_id
    λ w. respond endpoint request_id (serve endpoint incoming w)
