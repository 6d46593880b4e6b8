-- ===== src/Api/Handlers.antt =====
-- The handlers of backend/src/app.controller.ts, auth/auth.controller.ts and
-- users/users.controller.ts.
use hotel_crm.Prelude.{◌≡◌, ◌≤◌, String, Option, none, some}
use hotel_crm.Platform.{Platform, World}
use hotel_crm.Platform.Results.{Outcome, ok, Action, pure, throw, unexpected, ◌>>=◌, ◌>>◌}
use hotel_crm.Users.Types.{PublicUser, CreateUserDto, UpdateUserDto}
use hotel_crm.Users.Repository.{PageRequest}
use hotel_crm.Users.Service.{find_page, find_by_id, create, update}
use hotel_crm.Auth.Guards.{AuthenticatedUser}
use hotel_crm.Auth.Sessions.{LoginDto, LoginResult, TokenPair, login, refresh, logout}
use hotel_crm.Http.Envelope.{Payload, plain, paginated}
use hotel_crm.Api.Routes.{
  Endpoint, hello, log_in, refresh_session, log_out, me, list_users, get_user, create_user,
  update_user,
}

-- What a handler returns.
pub data Value (K : Type 0) : Type 0 where
  greeting : String → Value K
  session : LoginResult K → Value K
  pair : TokenPair K → Value K
  identity : Option AuthenticatedUser → Value K
  one_user : PublicUser → Value K
  nothing : Value K

-- backend/src/users/dto/list-users-query.dto.ts, as far as its bounds go.
pub record IsListUsersQuery (q : PageRequest) : Type 0 where
  pub page_min : 1 ≤ q.page
  pub limit_min : 1 ≤ q.limit
  pub limit_max : q.limit ≤ 100

-- The pipes that turn the raw parts `D` of a request into the arguments of a handler: the
-- ValidationPipe with the decorators of the DTOs, and ParseUUIDPipe.
pub record Pipes (K D : Type 0) : Type 0 where
  pub login_body : D → Outcome LoginDto
  pub token_body : D → Outcome K
  pub list_query : D → Outcome PageRequest
  pub list_query-IsListUsersQuery :
      (d : D) (q : PageRequest) → list_query d ≡ ok q → IsListUsersQuery q
  pub id_param : D → Outcome String
  pub create_body : D → Outcome CreateUserDto
  pub update_body : D → Outcome UpdateUserDto

module _ {W : Type 0} where
  -- A pipe changes nothing.
  abbrev pub piped : {A : Type 0} → Outcome A → Action W A
  piped o w = (o, w)

-- `actor.userId`: without a user the property access throws.
abbrev pub actor_id : {W : Type 0} → Option AuthenticatedUser → Action W String
actor_id none = throw (unexpected "TypeError")
actor_id (some user) = pure user.user_id

module _ {U T R K D : Type 0} (p : Platform U T R K) (pipes : Pipes K D) where
  abbrev Handler : Type 0
  Handler = Action (World U T R) (Payload (Value K) PublicUser)

  abbrev get_hello : Handler
  get_hello = pure (plain (greeting "Hello World!"))

  abbrev post_login : Option String → String → D → Handler
  post_login tenant ip d = do
    dto ← piped (pipes.login_body d)
    result ← login p tenant dto ip
    pure (plain (session result))

  abbrev post_refresh : D → Handler
  post_refresh d = do
    token ← piped (pipes.token_body d)
    tokens ← refresh p token
    pure (plain (pair tokens))

  abbrev post_logout : D → Handler
  post_logout d = do token ← piped (pipes.token_body d); logout p token; pure (plain nothing)

  abbrev get_me : Option AuthenticatedUser → Handler
  get_me user = pure (plain (identity user))

  abbrev find_all : Option String → D → Handler
  find_all tenant d = do
    query ← piped (pipes.list_query d)
    page ← find_page p tenant query
    pure (paginated page)

  abbrev find_one : Option String → D → Handler
  find_one tenant d = do
    id ← piped (pipes.id_param d)
    found ← find_by_id p tenant id
    pure (plain (one_user found))

  abbrev post_user : Option String → D → Handler
  post_user tenant d = do
    dto ← piped (pipes.create_body d)
    created ← create p tenant dto
    pure (plain (one_user created))

  abbrev patch_user : Option String → Option AuthenticatedUser → D → Handler
  patch_user tenant user d = do
    id ← piped (pipes.id_param d)
    dto ← piped (pipes.update_body d)
    actor ← actor_id user
    updated ← update p tenant id dto actor
    pure (plain (one_user updated))

  -- The tenant, the user and the address of the request, and its content.
  unfoldable pub handle : Endpoint → Option String → Option AuthenticatedUser → String → D → Handler
  handle hello tenant user ip d = get_hello
  handle log_in tenant user ip d = post_login tenant ip d
  handle refresh_session tenant user ip d = post_refresh d
  handle log_out tenant user ip d = post_logout d
  handle me tenant user ip d = get_me user
  handle list_users tenant user ip d = find_all tenant d
  handle get_user tenant user ip d = find_one tenant d
  handle create_user tenant user ip d = post_user tenant d
  handle update_user tenant user ip d = patch_user tenant user d
