-- ===== src/Dto/Undeclared.antt =====
-- `forbidNonWhitelisted: true`: a property that the DTO does not declare.
use hotel_crm.Prelude.{ℕ, ◌≡◌, refl, ◌∙◌, String, Option, All-at, Memᴰ, ◌⊎◌, inl, inr}
use hotel_crm.Platform.{Platform, World}
use hotel_crm.Platform.Results.{
  ok, err, Exception, Response, text, object, one, many, missing, Outcome-cases,
}
use hotel_crm.Auth.Guards.{Passport, AuthenticatedUser, activate}
use hotel_crm.Auth.Refusals.{activate-err}
use hotel_crm.Http.Errors.{ErrorResponse, of_response, catch, resolve_error}
use hotel_crm.Api.Routes.{update_user, route_of}
use hotel_crm.Api.Handlers.{handle}
use hotel_crm.Api.Pipeline.{Incoming, failure, request_of, serve, respond, reply}
use hotel_crm.Api.Guarded.{SameState, request_id_lem, refused, refusal_status}
use hotel_crm.Dto.Validator.{Plain, Dto, Validator, ValidationPipe, IsDeclared}
use hotel_crm.Dto.Schemas.{update_user_dto}
use hotel_crm.Dto.Readers.{update_user_of}
use hotel_crm.Dto.Pipes.{IsBadRequest, UuidPipe, RawContent, validated, update_body, request_pipes}

of_response-status : (n : ℕ) (m : String) (r : Response) → (of_response n m r).status ≡ n
of_response-status n m (text s) = refl
of_response-status n m (object (one s)) = refl
of_response-status n m (object (many l)) = refl
of_response-status n m (object missing) = refl

module _ {V K : Type 0} (validator : Validator V) (pipe : ValidationPipe validator)
    (uuids : UuidPipe) (token_of : String → K) where
  undeclared-validated :
      {A : Type 0} (dto : Dto) (f : Plain V → Option A) (plain : Plain V) (key : String) (v : V)
      → Memᴰ (key, v) plain
      → ¬ IsDeclared validator dto key
      → (e : Exception) × (validated validator pipe uuids token_of dto f plain ≡ err e)
        × IsBadRequest e
  undeclared-validated dto f plain key v m n = elim (Outcome-cases (pipe.transform dto plain)) [
    | inl (i, e) ↦
        let (declared, _) = pipe.transform-ok dto plain i e in absurd (n (All-at _ _ declared m))
    | inr (x, e) ↦
        let (messages, k) = pipe.transform-err dto plain x e in (x, rw e refl, (_, k, refl))
  ]

  module _ {U T R : Type 0} (p : Platform U T R K) (passport : Passport p.jwt) where
    refused-update :
        (content : RawContent V) (current : Option String) (user : Option AuthenticatedUser)
        (ip : String) (x : Exception)
        → update_body validator pipe uuids token_of content ≡ err x
        → IsBadRequest x
        → (e : Exception) × IsBadRequest e
          × ((w : World U T R)
              → handle p
                  (request_pipes validator pipe uuids token_of)
                  update_user
                  current
                  user
                  ip
                  content
                  w
                ≡ (err e, w))
    unfolding handle
    refused-update content current user ip x e b = elim (Outcome-cases (uuids.parse content.id)) [
      | inl (id, k) ↦ (x, b, λ w. rw (k, e) refl)
      | inr (y, k) ↦ (y, uuids.parse-err content.id y k, λ w. rw k refl)
    ]

    resolved : (e : Exception) → IsBadRequest e → (resolve_error e).status ≡ 400
    unfolding resolve_error
    resolved e (y, f, s) = rw f (of_response-status y.status y.message y.response ∙ s)

    -- A PATCH of a user whose body has a property that UpdateUserDto does not declare, such as an
    -- e-mail address, a password or a tenant, is answered with status 400, 401 or 403, and users,
    -- refresh tokens and counters stay as they are.
    pub reply-undeclared :
        (incoming : Incoming K (RawContent V)) (w : World U T R) (key : String) (v : V)
        → Memᴰ (key, v) incoming.content.body
        → ¬ IsDeclared validator update_user_dto key
        → (f : ErrorResponse) × ((reply p passport
              (request_pipes validator pipe uuids token_of)
              update_user
              incoming
              w).0
            ≡ ok (failure f))
          × (f.http_status ≡ 400 ⊎ (f.http_status ≡ 401 ⊎ f.http_status ≡ 403))
          × SameState
              (reply p passport
                (request_pipes validator pipe uuids token_of)
                update_user
                incoming
                w).1
              w
    unfolding reply serve respond catch route_of
    reply-undeclared incoming w key v m n =
        let pipes = request_pipes validator pipe uuids token_of in
        let req = request_of p passport pipes incoming in
        elim (Outcome-cases
          (activate passport p.env.jwt_secret (p.clock w.reads) (route_of update_user) req)) [
            | inr (x, e) ↦
                let (f, g, status, same) = refused p passport pipes update_user incoming w x e in
                (
                  f,
                  g,
                  refusal_status p passport pipes update_user incoming f x
                      (activate-err passport p.env.jwt_secret (p.clock w.reads)
                        (route_of update_user) req x refl e)
                      status,
                  same,
                )
            | inl (seen, e) ↦
                let (x, k, b) =
                  undeclared-validated update_user_dto (update_user_of validator)
                    incoming.content.body key v m n in
                let (y, c, run) =
                  refused-update incoming.content seen.tenant_id seen.user incoming.ip x k b in
                let (id, u, g, same, l, _) =
                  request_id_lem p passport pipes incoming.request_id w in
                rw (g, l, e, run) (_, refl, inl (resolved y c), same)
          ]
