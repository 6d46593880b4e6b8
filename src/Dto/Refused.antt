-- ===== src/Dto/Refused.antt =====
-- Requests whose content the pipes refuse.
use hotel_crm.Prelude.{◌≢◌, refl, String, inl, inr}
use hotel_crm.Api.Handlers.{IsListUsersQuery}
use hotel_crm.Dto.Validator.{Validator, ValidationPipe}
use hotel_crm.Dto.Schemas.{
  create_user_dto, update_user_dto, list_users_query_dto, login_dto, refresh_token_dto,
}
use hotel_crm.Dto.Readers.{
  create_user_of, update_user_of, page_request_of, login_of, refresh_token_of,
}
use hotel_crm.Dto.Accepted.{
  create_user_of-some, update_user_of-some, page_request_of-some, login_of-some,
  refresh_token_of-some, IsCreateUser, IsUpdateUser, IsLogin,
}
use hotel_crm.Dto.Pipes.{
  UuidPipe, RawContent, Yields, validated-Yields, login_body, token_body, list_query, create_body,
  update_body,
}

module _ {V K : Type 0} (validator : Validator V) (pipe : ValidationPipe validator)
    (uuids : UuidPipe) (token_of : String → K) where
  module _ (content : RawContent V) where
    token-Yields :
        Yields validator pipe uuids token_of
          (λ token. Unit {0})
          (token_body validator pipe uuids token_of content)
    token-Yields =
        elim (validated-Yields validator pipe uuids token_of refresh_token_dto
          (refresh_token_of validator) (λ s. s ≢ "") content.body
          (refresh_token_of-some validator pipe content.body)) [
            | inl (s, e, k) ↦ inl (token_of s, rw e refl, tt)
            | inr (x, e, k) ↦ inr (x, rw e refl, k)
          ]

    -- Whatever a request contains, each pipe either yields an argument of the type that the handler
    -- declares, `null` standing for an optional property too, or refuses the request with status 400.
    -- An argument has an e-mail address, a password of one character at least at a log-in and of
    -- eight at a creation, a page and a limit in their bounds, and in an update a name that is not
    -- empty and permissions of the catalogue, where it has these.
    pub pipes-Yields :
        Yields validator pipe uuids token_of
          (IsLogin validator)
          (login_body validator pipe uuids token_of content)
        × Yields validator pipe uuids token_of
            (λ token. Unit {0})
            (token_body validator pipe uuids token_of content)
        × Yields validator pipe uuids token_of IsListUsersQuery
            (list_query validator pipe uuids token_of content)
        × Yields validator pipe uuids token_of
            (IsCreateUser validator)
            (create_body validator pipe uuids token_of content)
        × Yields validator pipe uuids token_of
            (IsUpdateUser validator)
            (update_body validator pipe uuids token_of content)
    pipes-Yields = (
      validated-Yields validator pipe uuids token_of login_dto (login_of validator)
          (IsLogin validator) content.body (login_of-some validator pipe content.body),
      token-Yields,
      validated-Yields validator pipe uuids token_of list_users_query_dto
          (page_request_of validator) IsListUsersQuery content.query
          (page_request_of-some validator pipe content.query),
      validated-Yields validator pipe uuids token_of create_user_dto (create_user_of validator)
          (IsCreateUser validator) content.body (create_user_of-some validator pipe content.body),
      validated-Yields validator pipe uuids token_of update_user_dto (update_user_of validator)
          (IsUpdateUser validator) content.body (update_user_of-some validator pipe content.body),
    )
