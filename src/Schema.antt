-- ===== src/Schema.antt =====
-- backend/prisma/schema.prisma: the rows of the two tables that the application reads and writes.
-- A role is one of three, as the CHECK constraint on `users.role` has it.
use hotel_crm.Prelude.{ℕ, String, Bool, ◌&&◌, ◌||◌, Option, List, str_eq}

pub data Role : Type 0 where
  admin manager staff : Role

pub record UserRow : Type 0 where
  pub id : String
  pub tenant_id : String
  pub email : String
  pub password_hash : String
  pub full_name : String
  pub role : Role
  pub permissions : List String
  pub phone : Option String
  pub is_active : Bool
  pub last_login_at : Option ℕ
  pub created_at : ℕ
  pub updated_at : ℕ

pub record TokenRow : Type 0 where
  pub id : String
  pub tenant_id : String
  pub user_id : String
  pub family_id : String
  pub token_hash : String
  pub expires_at : ℕ
  pub revoked_at : Option ℕ
  pub created_at : ℕ

-- `@id` and `@@unique([tenantId, email])`.
abbrev pub user_conflict : UserRow → UserRow → Bool
user_conflict r x = str_eq r.id x.id || (str_eq r.tenant_id x.tenant_id && str_eq r.email x.email)

-- `@id` and `@unique` on the hash.
abbrev pub token_conflict : TokenRow → TokenRow → Bool
token_conflict r x = str_eq r.id x.id || str_eq r.token_hash x.token_hash
