-- ===== src/Tests/Bodies.antt =====
-- Bodies of requests.
use hotel_crm.Prelude.{◌≡◌, refl, ap, arith, String, str_eq, false, some, [], ◌∷◌, ◌⊎◌, Memᴰ}
use hotel_crm.Platform.Results.{ok}
use hotel_crm.Tenant.{single}
use hotel_crm.Auth.Permissions.{permission_name, guests_view}
use hotel_crm.Http.Errors.{ErrorResponse}
use hotel_crm.Api.Routes.{update_user}
use hotel_crm.Api.Handlers.{IsListUsersQuery}
use hotel_crm.Api.Pipeline.{Incoming, failure, reply}
use hotel_crm.Api.Guarded.{SameState}
use hotel_crm.Dto.Validator.{Property, IsDeclared}
use hotel_crm.Dto.Schemas.{update_user_dto}
use hotel_crm.Dto.Readers.{create_user_of, texts_of}
use hotel_crm.Users.Types.{absent, null, value}
use hotel_crm.Dto.Accepted.{IsLogin, IsCreateUser, IsUpdateUser}
use hotel_crm.Dto.Pipes.{
  RawContent, Yields, login_body, token_body, list_query, create_body, update_body, request_pipes,
}
use hotel_crm.Dto.Refused.{pipes-Yields}
use hotel_crm.Dto.Undeclared.{reply-undeclared}
use hotel_crm.Tests.Worlds.{admin_token, token, start}
use hotel_crm.Memory.Bearer.{passport}
use hotel_crm.Memory.Server.{Signed, memory}
use hotel_crm.Memory.Values.{
  Sample, word, words, nil, sample_validator, accepts, text_length, member, all_members,
}
use hotel_crm.Memory.Transform.{
  sample_pipe, sample_uuids, distinct, all_declared, all_met, instance_of, declares, accepts_all,
}

abbrev signed : String → Signed
signed s = token

-- A user who is to be created, with `null` for the role.
abbrev newcomer : RawContent Sample
newcomer = record {
  id = "";
  query = [];
  body =
      ("email", word "dan@hotel")
      ∷ ("password", word "password")
      ∷ ("fullName", word "Dan")
      ∷ ("role", nil)
      ∷ ("permissions", words (permission_name guests_view ∷ []))
      ∷ [];
}

pipes-Yields_example :
    Yields sample_validator sample_pipe sample_uuids signed
      (IsLogin sample_validator)
      (login_body sample_validator sample_pipe sample_uuids signed newcomer)
    × Yields sample_validator sample_pipe sample_uuids signed
        (λ t. Unit {0})
        (token_body sample_validator sample_pipe sample_uuids signed newcomer)
    × Yields sample_validator sample_pipe sample_uuids signed IsListUsersQuery
        (list_query sample_validator sample_pipe sample_uuids signed newcomer)
    × Yields sample_validator sample_pipe sample_uuids signed
        (IsCreateUser sample_validator)
        (create_body sample_validator sample_pipe sample_uuids signed newcomer)
    × Yields sample_validator sample_pipe sample_uuids signed
        (IsUpdateUser sample_validator)
        (update_body sample_validator sample_pipe sample_uuids signed newcomer)
pipes-Yields_example = pipes-Yields sample_validator sample_pipe sample_uuids signed newcomer

-- The body is accepted as a creation.
accepted :
    create_body sample_validator sample_pipe sample_uuids signed newcomer
    ≡ ok (record {
      email = "dan@hotel";
      password = "password";
      full_name = "Dan";
      role = null;
      permissions = value (permission_name guests_view ∷ []);
      phone = absent;
    })
unfolding accepts text_length member all_members distinct all_declared all_met instance_of declares
    accepts_all create_user_of texts_of
accepted = refl

-- A new address for a user.
abbrev moved : Incoming Signed (RawContent Sample)
moved = record {
  request_id = single "r1";
  tenant_id = single "t";
  bearer = some (admin_token "t");
  ip = "10.0.0.1";
  content = record { id = "c"; query = []; body = ("email", word "eve@hotel") ∷ [] };
}

not_named : (p q : Property) → p ≡ q → str_eq q.name "email" ≡ false → p.name ≡ "email" → ⊥
not_named p q e n f =
    ground (arith, n, ap (λ r. str_eq r.name "email") e, ap (λ s. str_eq s "email") f)

undeclared : ¬ IsDeclared sample_validator update_user_dto "email"
undeclared (p, Memᴰ.head e, f) = not_named p _ e refl f
undeclared (p, Memᴰ.tail (Memᴰ.head e), f) = not_named p _ e refl f
undeclared (p, Memᴰ.tail (Memᴰ.tail (Memᴰ.head e)), f) = not_named p _ e refl f
undeclared (p, Memᴰ.tail (Memᴰ.tail (Memᴰ.tail (Memᴰ.head e))), f) = not_named p _ e refl f
undeclared (p, Memᴰ.tail (Memᴰ.tail (Memᴰ.tail (Memᴰ.tail (Memᴰ.head e)))), f) =
    not_named p _ e refl f
undeclared (p, Memᴰ.tail (Memᴰ.tail (Memᴰ.tail (Memᴰ.tail (Memᴰ.tail m)))), f) = elim m [ ]

reply-undeclared_example :
    (f : ErrorResponse) × ((reply memory passport
        (request_pipes sample_validator sample_pipe sample_uuids signed)
        update_user
        moved
        start).0
      ≡ ok (failure f))
    × (f.http_status ≡ 400 ⊎ (f.http_status ≡ 401 ⊎ f.http_status ≡ 403))
    × SameState
        (reply memory passport
          (request_pipes sample_validator sample_pipe sample_uuids signed)
          update_user
          moved
          start).1
        start
reply-undeclared_example =
    reply-undeclared sample_validator sample_pipe sample_uuids signed memory passport moved start
      "email" (word "eve@hotel") (Memᴰ.head refl) undeclared
