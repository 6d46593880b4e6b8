-- ===== src/Api/Moved.antt =====
-- A request as a whole moves the world along every relation that covers its steps.
use hotel_crm.Prelude.{◌≡◌, refl, arith, String, Option, none, some}
use hotel_crm.Platform.{Platform, World}
use hotel_crm.Platform.Moves.{Moves, >>=-Moves, pure-Moves, throw-Moves}
use hotel_crm.Platform.Results.{Outcome, ok, err, Action, pure, ◌>>=◌}
use hotel_crm.Tenant.{Header, tenant_of_header}
use hotel_crm.Auth.Access.{activate-tenant}
use hotel_crm.Auth.Guards.{AuthenticatedUser, Passport, Request, activate}
use hotel_crm.Users.Types.{PublicUser}
use hotel_crm.Http.Envelope.{Payload, request_id_of, own_or_drawn, intercept, plain, paginated}
use hotel_crm.Http.Errors.{catch}
use hotel_crm.Api.Routes.{
  Endpoint, hello, log_in, refresh_session, log_out, me, list_users, get_user, create_user,
  update_user, route_of,
}
use hotel_crm.Api.Handlers.{
  Value, Pipes, piped, actor_id, handle, greeting, session, pair, identity, one_user, nothing,
}
use hotel_crm.Api.Pipeline.{Incoming, request_of, serve, respond, reply}
use hotel_crm.Api.Covers.{Covers, read-Moves, idle-Moves, Idle}
use hotel_crm.Api.Tokens.{now-Moves}
use hotel_crm.Api.Accounts.{find_page-Moves, find_by_id-Moves, create-Moves, update-Moves}
use hotel_crm.Api.Logins.{login-Moves, refresh-Moves, logout-Moves}

module _ {U T R K D : Type 0} (p : Platform U T R K) (pipes : Pipes K D) {current : Option String}
    {Rel : World U T R → World U T R → Type 0} (covers : Covers p current Rel) where
  piped-Moves : {A : Type 0} (o : Outcome A) → Moves Rel (piped o)
  piped-Moves o = read-Moves p covers λ w. refl

  actor_id-Moves : (o : Option AuthenticatedUser) → Moves Rel (actor_id o)
  actor_id-Moves none = throw-Moves covers.order _
  actor_id-Moves (some user) = pure-Moves covers.order _

  answer :
      {A : Type 0} {m : Action (World U T R) A} (f : A → Payload (Value K) PublicUser)
      → Moves Rel m
      → Moves Rel (m >>= λ a. pure (f a))
  answer f h = >>=-Moves covers.order h λ a. pure-Moves covers.order (f a)

  handle-Moves :
      (endpoint : Endpoint) (user : Option AuthenticatedUser) (ip : String) (d : D)
      → Moves Rel (handle p pipes endpoint current user ip d)
  unfolding handle
  handle-Moves hello user ip d = pure-Moves covers.order (plain (greeting "Hello World!"))
  handle-Moves log_in user ip d =
      >>=-Moves covers.order (piped-Moves (pipes.login_body d))
        λ dto. answer (λ r. plain (session r)) (login-Moves p covers dto ip)
  handle-Moves refresh_session user ip d =
      >>=-Moves covers.order (piped-Moves (pipes.token_body d))
        λ token. answer (λ r. plain (pair r)) (refresh-Moves p covers token)
  handle-Moves log_out user ip d =
      >>=-Moves covers.order (piped-Moves (pipes.token_body d))
        λ token. answer (λ r. plain nothing) (logout-Moves p covers token)
  handle-Moves me user ip d = pure-Moves covers.order (plain (identity user))
  handle-Moves list_users user ip d =
      >>=-Moves covers.order (piped-Moves (pipes.list_query d))
        λ query. answer paginated (find_page-Moves p covers query)
  handle-Moves get_user user ip d =
      >>=-Moves covers.order (piped-Moves (pipes.id_param d))
        λ id. answer (λ r. plain (one_user r)) (find_by_id-Moves p covers id)
  handle-Moves create_user user ip d =
      >>=-Moves covers.order (piped-Moves (pipes.create_body d))
        λ dto. answer (λ r. plain (one_user r)) (create-Moves p covers dto)
  handle-Moves update_user user ip d = >>=-Moves covers.order (piped-Moves (pipes.id_param d)) λ id.
      >>=-Moves covers.order (piped-Moves (pipes.update_body d)) λ dto.
        >>=-Moves covers.order (actor_id-Moves user)
          λ actor. answer (λ r. plain (one_user r)) (update-Moves p covers id actor dto)

module _ {U T R K D : Type 0} (p : Platform U T R K) (passport : Passport p.jwt) (pipes : Pipes K D)
    (endpoint : Endpoint) (incoming : Incoming K D) {Rel : World U T R → World U T R → Type 0}
    (covers : Covers p (tenant_of_header incoming.tenant_id) Rel) where
  handled-Moves :
      (o : Outcome (Request K))
      → ((seen : Request K) → o ≡ ok seen → seen.tenant_id ≡ tenant_of_header incoming.tenant_id)
      → Moves Rel (
          piped o >>= λ seen.
          handle p pipes endpoint seen.tenant_id seen.user incoming.ip incoming.content)
  handled-Moves (ok seen) e =
      rw (e seen refl) (handle-Moves p pipes covers endpoint seen.user incoming.ip incoming.content)
  handled-Moves (err x) e = throw-Moves covers.order x

  pub serve-Moves : Moves Rel (serve p passport pipes endpoint incoming)
  unfolding serve
  serve-Moves = >>=-Moves covers.order (now-Moves p covers) λ at.
      handled-Moves
        (activate passport p.env.jwt_secret at (route_of endpoint)
          (request_of p passport pipes incoming))
        λ seen e.
          activate-tenant passport p.env.jwt_secret at (route_of endpoint)
            (request_of p passport pipes incoming) seen e

  respond-Idle :
      (request_id : String) (o : Outcome (Payload (Value K) PublicUser) × World U T R)
      → Idle o.1 (respond p passport pipes endpoint request_id o).1
  unfolding respond intercept catch
  respond-Idle request_id (ok payload, w) = (refl, refl, omega arith)
  respond-Idle request_id (err e, w) = (refl, refl, omega arith)

  -- What the request does once it has its id.
  pub responded-moved :
      (request_id : String) (w : World U T R)
      (o : Outcome (Payload (Value K) PublicUser) × World U T R)
      → Rel w o.1
      → Rel w (respond p passport pipes endpoint request_id o).1
  responded-moved request_id w o h =
      covers.order.transitive w o.1 _ h (covers.idle o.1 _ (respond-Idle request_id o))

  pub request_id_of-Moves : (x : Header) → Moves Rel (request_id_of p x)
  unfolding request_id_of own_or_drawn
  request_id_of-Moves x = idle-Moves p covers λ w. ground arith

  pub reply-Moves : Moves Rel (reply p passport pipes endpoint incoming)
  unfolding reply
  reply-Moves =
      >>=-Moves covers.order (request_id_of-Moves incoming.request_id)
        λ id. record { moved = λ w. responded-moved id w _ (serve-Moves.moved w) }
