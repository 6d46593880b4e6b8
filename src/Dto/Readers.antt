-- ===== src/Dto/Readers.antt =====
-- The arguments of the handlers, read from what the pipes return. TypeScript's types say that the
-- properties have these types; `none` is a value that does not have the type.
use hotel_crm.Prelude.{ℕ, String, Bool, Option, none, some, List, [], ◌∷◌, if◌then◌else◌, str_eq}
use hotel_crm.Schema.{Role, admin, manager, staff}
use hotel_crm.Users.Types.{Field, absent, null, value, CreateUserDto, UpdateUserDto}
use hotel_crm.Users.Repository.{PageRequest}
use hotel_crm.Auth.Permissions.{role_name}
use hotel_crm.Auth.Sessions.{LoginDto}
use hotel_crm.Dto.Validator.{
  Shape, undefined, null, boolean, natural, text, array, Plain, Validator, read,
}

-- Chains of optional values.
infixl 5 ◌>>=◌
abbrev pub ◌>>=◌ : {A B : Type 0} → Option A → (A → Option B) → Option B
none >>= f = none
some a >>= f = f a

abbrev pub as_text : {V : Type 0} → Shape V → Option String
as_text (text s) = some s
as_text _ = none

abbrev pub as_boolean : {V : Type 0} → Shape V → Option Bool
as_boolean (boolean b) = some b
as_boolean _ = none

abbrev pub as_natural : {V : Type 0} → Shape V → Option ℕ
as_natural (natural n) = some n
as_natural _ = none

abbrev pub role_of : String → Option Role
role_of s =
    if str_eq s (role_name admin)
    then some admin
    else (if str_eq s (role_name manager)
        then some manager
        else (if str_eq s (role_name staff) then some staff else none))

abbrev pub as_role : {V : Type 0} → Shape V → Option Role
as_role s = as_text s >>= role_of

-- An optional property.
abbrev pub field_of : {V A : Type 0} → (Shape V → Option A) → Shape V → Option (Field A)
field_of f undefined = some absent
field_of f null = some null
field_of f s = f s >>= λ a. some (value a)

module _ {V : Type 0} (validator : Validator V) where
  unfoldable pub texts_of : List V → Option (List String)
  texts_of [] = some []
  texts_of (v ∷ l) = do s ← as_text (validator.shape v); rest ← texts_of l; some (s ∷ rest)

  abbrev pub as_texts : Shape V → Option (List String)
  as_texts (array l) = texts_of l
  as_texts _ = none

  abbrev pub shape_of : String → Plain V → Shape V
  shape_of name plain = validator.shape (read validator name plain)

  unfoldable pub create_user_of : Plain V → Option CreateUserDto
  create_user_of plain = do
    email ← as_text (shape_of "email" plain)
    password ← as_text (shape_of "password" plain)
    full_name ← as_text (shape_of "fullName" plain)
    role ← field_of as_role (shape_of "role" plain)
    permissions ← field_of as_texts (shape_of "permissions" plain)
    phone ← field_of as_text (shape_of "phone" plain)
    some (record {
      email = email;
      password = password;
      full_name = full_name;
      role = role;
      permissions = permissions;
      phone = phone;
    })

  unfoldable pub update_user_of : Plain V → Option UpdateUserDto
  update_user_of plain = do
    full_name ← field_of as_text (shape_of "fullName" plain)
    phone ← field_of as_text (shape_of "phone" plain)
    role ← field_of as_role (shape_of "role" plain)
    permissions ← field_of as_texts (shape_of "permissions" plain)
    is_active ← field_of as_boolean (shape_of "isActive" plain)
    some (record {
      full_name = full_name;
      phone = phone;
      role = role;
      permissions = permissions;
      is_active = is_active;
    })

  unfoldable pub page_request_of : Plain V → Option PageRequest
  page_request_of plain = do
    page ← as_natural (shape_of "page" plain)
    limit ← as_natural (shape_of "limit" plain)
    some (record { page = page; limit = limit })

  unfoldable pub login_of : Plain V → Option LoginDto
  login_of plain = do
    email ← as_text (shape_of "email" plain)
    password ← as_text (shape_of "password" plain)
    some (record { email = email; password = password })

  unfoldable pub refresh_token_of : Plain V → Option String
  refresh_token_of plain = as_text (shape_of "refreshToken" plain)
