-- ===== src/Dto/Schemas.antt =====
-- The DTO classes of backend/src/users/dto/ and auth/dto/ with their decorators.
use hotel_crm.Prelude.{ℕ, String, true, false, none, some, List, [], ◌∷◌, map}
use hotel_crm.Schema.{admin, manager, staff}
use hotel_crm.Auth.Permissions.{permission_name, all_permissions, role_name}
use hotel_crm.Dto.Validator.{
  Decorator, Property, Dto, is_string, is_email, is_array, is_boolean, is_int, is_not_empty,
  is_string_each, min_length, min, max, is_in, is_in_each,
}

-- ROLES
abbrev pub roles : List String
roles = role_name admin ∷ role_name manager ∷ role_name staff ∷ []

-- ALL_PERMISSIONS
abbrev pub permission_names : List String
permission_names = map permission_name all_permissions

abbrev required : String → List Decorator → Property
required name decorators = record {
  name = name;
  optional = false;
  to_number = false;
  initial = none;
  decorators = decorators;
}

abbrev optional : String → List Decorator → Property
optional name decorators = record (required name decorators) { optional = true }

-- `@Type(() => Number)` with an initial value.
abbrev number : String → ℕ → List Decorator → Property
number name initial decorators = record {
  name = name;
  optional = true;
  to_number = true;
  initial = some initial;
  decorators = decorators;
}

abbrev pub create_user_email : Property
create_user_email = required "email" (is_email ∷ [])

abbrev pub create_user_password : Property
create_user_password = required "password" (is_string ∷ min_length 8 ∷ [])

abbrev pub create_user_full_name : Property
create_user_full_name = required "fullName" (is_string ∷ [])

abbrev pub create_user_role : Property
create_user_role = optional "role" (is_in roles ∷ [])

abbrev pub create_user_permissions : Property
create_user_permissions = optional "permissions" (is_array ∷ is_string_each ∷ [])

abbrev pub create_user_phone : Property
create_user_phone = optional "phone" (is_string ∷ [])

abbrev pub create_user_dto : Dto
create_user_dto =
    create_user_email ∷ create_user_password ∷ create_user_full_name ∷ create_user_role
    ∷ create_user_permissions ∷ create_user_phone ∷ []

abbrev pub update_user_full_name : Property
update_user_full_name = optional "fullName" (is_string ∷ min_length 1 ∷ [])

abbrev pub update_user_phone : Property
update_user_phone = optional "phone" (is_string ∷ [])

abbrev pub update_user_role : Property
update_user_role = optional "role" (is_in roles ∷ [])

abbrev pub update_user_permissions : Property
update_user_permissions = optional "permissions" (is_array ∷ is_in_each permission_names ∷ [])

abbrev pub update_user_is_active : Property
update_user_is_active = optional "isActive" (is_boolean ∷ [])

abbrev pub update_user_dto : Dto
update_user_dto =
    update_user_full_name ∷ update_user_phone ∷ update_user_role ∷ update_user_permissions
    ∷ update_user_is_active ∷ []

abbrev default_page : ℕ
default_page = 1

abbrev default_limit : ℕ
default_limit = 20

abbrev max_limit : ℕ
max_limit = 100

abbrev pub list_users_page : Property
list_users_page = number "page" default_page (is_int ∷ min 1 ∷ [])

abbrev pub list_users_limit : Property
list_users_limit = number "limit" default_limit (is_int ∷ min 1 ∷ max max_limit ∷ [])

abbrev pub list_users_query_dto : Dto
list_users_query_dto = list_users_page ∷ list_users_limit ∷ []

abbrev pub login_email : Property
login_email = required "email" (is_email ∷ [])

abbrev pub login_password : Property
login_password = required "password" (is_string ∷ min_length 1 ∷ [])

abbrev pub login_dto : Dto
login_dto = login_email ∷ login_password ∷ []

abbrev pub token_refresh_token : Property
token_refresh_token = required "refreshToken" (is_string ∷ is_not_empty ∷ [])

abbrev pub refresh_token_dto : Dto
refresh_token_dto = token_refresh_token ∷ []
