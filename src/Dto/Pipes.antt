-- ===== src/Dto/Pipes.antt =====
-- The pipes of the application: the ValidationPipe with the DTO classes, and ParseUUIDPipe.
use hotel_crm.Prelude.{◌≡◌, refl, arith, String, Option, none, some, ◌⊎◌, inl, inr}
use hotel_crm.Platform.Results.{
  Outcome, ok, err, Exception, HttpException, http, unexpected, Outcome-cases,
}
use hotel_crm.Auth.Guards.{bind}
use hotel_crm.Auth.Sessions.{LoginDto}
use hotel_crm.Users.Types.{CreateUserDto, UpdateUserDto}
use hotel_crm.Users.Repository.{PageRequest}
use hotel_crm.Api.Handlers.{Pipes, IsListUsersQuery}
use hotel_crm.Dto.Validator.{Plain, Dto, Validator, ValidationPipe}
use hotel_crm.Dto.Schemas.{
  create_user_dto, update_user_dto, list_users_query_dto, login_dto, refresh_token_dto,
}
use hotel_crm.Dto.Readers.{
  create_user_of, update_user_of, page_request_of, login_of, refresh_token_of,
}
use hotel_crm.Dto.Accepted.{page_request_of-some}

abbrev pub IsBadRequest : Exception → Type 0
IsBadRequest e = (x : HttpException) × (e ≡ http x) × (x.status ≡ 400)

-- ParseUUIDPipe: the text, or an exception of status 400.
pub record UuidPipe : Type 0 where
  pub parse : String → Outcome String
  pub parse-err : (s : String) (e : Exception) → parse s ≡ err e → IsBadRequest e

-- The path parameter `id`, the query and the body of a request.
pub record RawContent (V : Type 0) : Type 0 where
  pub id : String
  pub query : Plain V
  pub body : Plain V

module _ {V K : Type 0} (validator : Validator V) (pipe : ValidationPipe validator)
    (uuids : UuidPipe) (token_of : String → K) where
  -- A property that did not have its type would fail where the handler uses it.
  abbrev pub typed : {A : Type 0} → Option A → Outcome A
  typed none = err (unexpected "TypeError")
  typed (some a) = ok a

  abbrev pub validated : {A : Type 0} → Dto → (Plain V → Option A) → Plain V → Outcome A
  validated dto f plain = bind (pipe.transform dto plain) λ i. typed (f i)

  -- An argument with a property, or the refusal of the request with 400.
  abbrev pub Yields : {A : Type 0} → (A → Type 0) → Outcome A → Type 0
  Yields {A = A} P o =
      ((a : A) × (o ≡ ok a) × P a) ⊎ ((e : Exception) × (o ≡ err e) × IsBadRequest e)

  pub validated-Yields :
      {A : Type 0} (dto : Dto) (f : Plain V → Option A) (P : A → Type 0) (plain : Plain V)
      → ((i : Plain V) → pipe.transform dto plain ≡ ok i → (a : A) × (f i ≡ some a) × P a)
      → Yields P (validated dto f plain)
  validated-Yields dto f P plain h = elim (Outcome-cases (pipe.transform dto plain)) [
    | inl (i, e) ↦ let (a, k, m) = h i e in inl (a, rw (e, k) refl, m)
    | inr (x, e) ↦
        let (messages, k) = pipe.transform-err dto plain x e in inr (x, rw e refl, (_, k, refl))
  ]

  abbrev pub login_body : RawContent V → Outcome LoginDto
  login_body content = validated login_dto (login_of validator) content.body

  abbrev pub token_body : RawContent V → Outcome K
  token_body content =
      bind (validated refresh_token_dto (refresh_token_of validator) content.body)
        λ s. ok (token_of s)

  abbrev pub list_query : RawContent V → Outcome PageRequest
  list_query content = validated list_users_query_dto (page_request_of validator) content.query

  abbrev pub create_body : RawContent V → Outcome CreateUserDto
  create_body content = validated create_user_dto (create_user_of validator) content.body

  abbrev pub update_body : RawContent V → Outcome UpdateUserDto
  update_body content = validated update_user_dto (update_user_of validator) content.body

  pub list_query-IsListUsersQuery :
      (content : RawContent V) (q : PageRequest) → list_query content ≡ ok q → IsListUsersQuery q
  list_query-IsListUsersQuery content q h =
      elim (validated-Yields list_users_query_dto (page_request_of validator) IsListUsersQuery
        content.query (page_request_of-some validator pipe content.query)) [
          | inl (a, e, k) ↦ let same : q ≡ a = ground (arith, h, e) in rw same k
          | inr (x, e, k) ↦ absurd (ground (arith, h, e))
        ]

  -- The pipes of the handlers.
  abbrev pub request_pipes : Pipes K (RawContent V)
  request_pipes = record {
    login_body = login_body;
    token_body = token_body;
    list_query = list_query;
    list_query-IsListUsersQuery = list_query-IsListUsersQuery;
    id_param = λ content. uuids.parse content.id;
    create_body = create_body;
    update_body = update_body;
  }
