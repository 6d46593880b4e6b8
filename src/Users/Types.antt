-- ===== src/Users/Types.antt =====
-- backend/src/users/types/user.types.ts, dto/ and the shapes of users.repository.ts.
use hotel_crm.Prelude.{ℕ, String, Bool, true, false, ◌||◌, Option, none, some, List}
use hotel_crm.Schema.{UserRow, Role}

-- An optional property of a request body. `@IsOptional` lets `null` pass unchecked.
pub data Field (A : Type 0) : Type 0 where
  absent null : Field A
  value : A → Field A

abbrev pub is_null : {A : Type 0} → Field A → Bool
is_null absent = false
is_null null = true
is_null (value a) = false

-- `x ?? d`
abbrev pub or_default : {A : Type 0} → Field A → A → A
or_default absent d = d
or_default null d = d
or_default (value a) d = a

pub record CreateUserDto : Type 0 where
  pub email : String
  pub password : String
  pub full_name : String
  pub role : Field Role
  pub permissions : Field (List String)
  pub phone : Field String

pub record UpdateUserDto : Type 0 where
  pub full_name : Field String
  pub phone : Field String
  pub role : Field Role
  pub permissions : Field (List String)
  pub is_active : Field Bool

-- UserUpdateRecord has the same properties.
abbrev pub UserUpdateRecord : Type 0
UserUpdateRecord = UpdateUserDto

pub record NewUserRecord : Type 0 where
  pub email : String
  pub password_hash : String
  pub full_name : String
  pub role : Role
  pub permissions : List String
  pub phone : Field String

-- PUBLIC_USER_SELECT: every column but the password's hash.
pub record PublicUser : Type 0 where
  pub id : String
  pub tenant_id : String
  pub email : String
  pub full_name : String
  pub role : Role
  pub permissions : List String
  pub phone : Option String
  pub is_active : Bool
  pub last_login_at : Option ℕ
  pub created_at : ℕ
  pub updated_at : ℕ

abbrev pub public_user : UserRow → PublicUser
public_user r = record {
  id = r.id;
  tenant_id = r.tenant_id;
  email = r.email;
  full_name = r.full_name;
  role = r.role;
  permissions = r.permissions;
  phone = r.phone;
  is_active = r.is_active;
  last_login_at = r.last_login_at;
  created_at = r.created_at;
  updated_at = r.updated_at;
}

-- A column that takes NULL, and one that does not: there a `null` is refused before it is written.
abbrev pub nullable : {A : Type 0} → Field A → Option A → Option A
nullable absent old = old
nullable null old = none
nullable (value a) old = some a

abbrev pub updated_row : ℕ → UserUpdateRecord → UserRow → UserRow
updated_row at d r = record r {
  full_name = or_default d.full_name r.full_name;
  phone = nullable d.phone r.phone;
  role = or_default d.role r.role;
  permissions = or_default d.permissions r.permissions;
  is_active = or_default d.is_active r.is_active;
  updated_at = at;
}

-- A `null` for a column that takes none.
abbrev pub has_null : UserUpdateRecord → Bool
has_null d = is_null d.full_name || is_null d.role || is_null d.permissions || is_null d.is_active

abbrev pub phone_of : Field String → Option String
phone_of f = nullable f none
