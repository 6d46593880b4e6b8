-- ===== src/Memory/Requests.antt =====
-- The content of requests and the pipes, for the platform in memory.
use hotel_crm.Prelude.{◌≡◌, ◌&&◌, arith, String, leb, if◌then◌else◌}
use hotel_crm.Platform.Results.{Outcome, ok, err, Exception, bad_request}
use hotel_crm.Users.Types.{CreateUserDto, UpdateUserDto}
use hotel_crm.Users.Repository.{PageRequest}
use hotel_crm.Auth.Sessions.{LoginDto}
use hotel_crm.Api.Handlers.{IsListUsersQuery, Pipes}
use hotel_crm.Memory.Server.{Signed}

pub data Content : Type 0 where
  empty : Content
  credentials : LoginDto → Content
  session_token : Signed → Content
  query : PageRequest → Content
  one_id : String → Content
  new_user : CreateUserDto → Content
  patch : String → UpdateUserDto → Content

abbrev invalid : Exception
invalid = bad_request "Validation failed"

abbrev login_body : Content → Outcome LoginDto
login_body (credentials dto) = ok dto
login_body _ = err invalid

abbrev token_body : Content → Outcome Signed
token_body (session_token t) = ok t
token_body _ = err invalid

abbrev in_bounds : PageRequest → Outcome PageRequest
in_bounds q = if leb 1 q.page && leb 1 q.limit && leb q.limit 100 then ok q else err invalid

abbrev list_query : Content → Outcome PageRequest
list_query (query q) = in_bounds q
list_query _ = err invalid

abbrev id_param : Content → Outcome String
id_param (one_id id) = ok id
id_param (patch id dto) = ok id
id_param _ = err invalid

abbrev create_body : Content → Outcome CreateUserDto
create_body (new_user dto) = ok dto
create_body _ = err invalid

abbrev update_body : Content → Outcome UpdateUserDto
update_body (patch id dto) = ok dto
update_body _ = err invalid

in_bounds-IsListUsersQuery : (p q : PageRequest) → in_bounds p ≡ ok q → IsListUsersQuery q
in_bounds-IsListUsersQuery p q h =
    let same : p ≡ q = ground arith in
    rw (← same)
      (record { page_min = ground arith; limit_min = ground arith; limit_max = ground arith })

pub list_query-IsListUsersQuery :
    (d : Content) (q : PageRequest) → list_query d ≡ ok q → IsListUsersQuery q
list_query-IsListUsersQuery (query p) q h = in_bounds-IsListUsersQuery p q h
list_query-IsListUsersQuery empty q h = absurd (ground arith)
list_query-IsListUsersQuery (credentials _) q h = absurd (ground arith)
list_query-IsListUsersQuery (session_token _) q h = absurd (ground arith)
list_query-IsListUsersQuery (one_id _) q h = absurd (ground arith)
list_query-IsListUsersQuery (new_user _) q h = absurd (ground arith)
list_query-IsListUsersQuery (patch _ _) q h = absurd (ground arith)

abbrev pub pipes : Pipes Signed Content
pipes = record {
  login_body = login_body;
  token_body = token_body;
  list_query = list_query;
  list_query-IsListUsersQuery = list_query-IsListUsersQuery;
  id_param = id_param;
  create_body = create_body;
  update_body = update_body;
}
