-- ===== src/Api/Guarded.antt =====
-- The answers to requests, with and without a right to them.
use hotel_crm.Prelude.{
  ◌+◌, ◌≡◌, refl, ◌⊎◌, inl, inr, String, false, Option, some, arith, Option-cases,
}
use hotel_crm.Platform.{Platform, World}
use hotel_crm.Platform.Results.{ok, err, Exception, Outcome-cases}
use hotel_crm.Platform.JsonWebToken.{Claims}
use hotel_crm.Tenant.{Header, tenant_of_header}
use hotel_crm.Auth.Guards.{Passport, validate, activate}
use hotel_crm.Auth.Access.{IsPermitted, activate-ok}
use hotel_crm.Auth.Refusals.{IsRefusal, activate-err}
use hotel_crm.Http.Envelope.{request_id_of, own_or_drawn}
use hotel_crm.Http.Errors.{ErrorResponse, catch, resolve_error}
use hotel_crm.Api.Routes.{Endpoint, route_of}
use hotel_crm.Api.Handlers.{Pipes}
use hotel_crm.Api.Pipeline.{Incoming, Reply, success, failure, request_of, serve, respond, reply}

-- The tables and the store of Redis are the same.
abbrev pub SameState : {U T R : Type 0} → World U T R → World U T R → Type 0
SameState v w = (v.users ≡ w.users) × (v.tokens ≡ w.tokens) × (v.redis ≡ w.redis)

-- The request id that an answer carries.
abbrev pub carried : {K : Type 0} → Reply K → Option String
carried (success status header r) = r.meta.request_id
carried (failure e) = e.request_id

-- The x-request-id header of an answer.
abbrev pub header_carried : {K : Type 0} → Reply K → Option String
header_carried (success status header r) = some header
header_carried (failure e) = e.request_id_header

module _ {U T R K D : Type 0} (p : Platform U T R K) (passport : Passport p.jwt)
    (pipes : Pipes K D) where
  pub request_id_lem :
      (x : Header) (w : World U T R)
      → (id : String) × (v : World U T R) × (request_id_of p x w ≡ (ok id, v))
        × SameState v w
        × (v.reads ≡ w.reads)
        × ((s : String) → tenant_of_header x ≡ some s → id ≡ s)
  unfolding request_id_of own_or_drawn
  request_id_lem x w = elim (Option-cases (tenant_of_header x)) [
    | inl e ↦ (
      p.random_uuid w.drawn,
      record w { drawn = w.drawn + 1 },
      rw e refl,
      (refl, refl, refl),
      refl,
      λ s f. absurd (cc (e, f)),
    )
    | inr (s, e) ↦ (s, w, rw e refl, (refl, refl, refl), refl, λ u f. ground (arith, e, f))
  ]

  -- What a request that is let in shows: a token that verifies, for the tenant of the request, of a
  -- user who may use the route.
  abbrev pub IsAdmitted : Endpoint → Incoming K D → World U T R → Type 0
  IsAdmitted endpoint incoming w =
      (token : K) × (c : Claims) × (incoming.bearer ≡ some token)
      × (p.jwt.verify p.env.jwt_secret (p.clock w.reads) token ≡ some c)
      × (tenant_of_header incoming.tenant_id ≡ some c.tenant_id)
      × IsPermitted (route_of endpoint) (validate c)

  module _ (endpoint : Endpoint) (incoming : Incoming K D) where
    pub refused :
        (w : World U T R) (e : Exception)
        → activate passport p.env.jwt_secret
            (p.clock w.reads)
            (route_of endpoint)
            (request_of p passport pipes incoming)
          ≡ err e
        → (f : ErrorResponse) × ((reply p passport pipes endpoint incoming w).0 ≡ ok (failure f))
          × (f.http_status ≡ (resolve_error e).status)
          × SameState (reply p passport pipes endpoint incoming w).1 w
    unfolding reply serve respond catch
    refused w e h =
        let (id, v, g, (a, b, c), k, _) = request_id_lem incoming.request_id w in
        rw (g, k, h) (_, refl, refl, (a, b, c))

    pub refusal_status :
        (f : ErrorResponse) (e : Exception)
        → IsRefusal e
        → f.http_status ≡ (resolve_error e).status
        → f.http_status ≡ 400 ⊎ (f.http_status ≡ 401 ⊎ f.http_status ≡ 403)
    unfolding resolve_error
    refusal_status f e (m, inl h) k = inl (rw h at k)
    refusal_status f e (m, inr (inl h)) k = inr (inl (rw h at k))
    refusal_status f e (m, inr (inr h)) k = inr (inr (rw h at k))

    -- A request to a route that is not public either shows a token that verifies, for the request's
    -- tenant and with the permissions that the route requires or as an administrator; or it is
    -- answered with a failure of status 400, 401 or 403, and users, refresh tokens and counters stay
    -- as they are.
    pub reply-guarded :
        (w : World U T R)
        → (route_of endpoint).is_public ≡ false
        → IsAdmitted endpoint incoming w
          ⊎ ((f : ErrorResponse) × ((reply p passport pipes endpoint incoming w).0 ≡ ok (failure f))
              × (f.http_status ≡ 400 ⊎ (f.http_status ≡ 401 ⊎ f.http_status ≡ 403))
              × SameState (reply p passport pipes endpoint incoming w).1 w)
    reply-guarded w n =
        let req = request_of p passport pipes incoming in
        elim (Outcome-cases
          (activate passport p.env.jwt_secret (p.clock w.reads) (route_of endpoint) req)) [
            | inr (x, e) ↦
                let (f, g, status, same) = refused w x e in
                inr (
                  f,
                  g,
                  refusal_status f x
                      (activate-err passport p.env.jwt_secret (p.clock w.reads) (route_of endpoint)
                        req x n e)
                      status,
                  same,
                )
            | inl (seen, e) ↦
                let (token, c, b, v, _, t, perm) =
                  activate-ok passport p.env.jwt_secret (p.clock w.reads) (route_of endpoint) req
                    seen n e in
                inl (token, c, b, v, t, perm)
          ]
