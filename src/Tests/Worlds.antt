-- ===== src/Tests/Worlds.antt =====
-- A hotel with three users and one refresh token, which was issued for the first of them.
use hotel_crm.Prelude.{String, true, none, [], ◌∷◌}
use hotel_crm.Schema.{UserRow, Role, admin, manager, staff}
use hotel_crm.Auth.Permissions.{default_permissions}
use hotel_crm.RefreshToken.Repository.{ConsumedRefreshToken}
use hotel_crm.RefreshToken.Service.{TokenSubject, issue, consume}
use hotel_crm.RefreshToken.Issue.{new_token}
use hotel_crm.Users.Types.{CreateUserDto, UpdateUserDto, absent, value}
use hotel_crm.Auth.Sessions.{access_claims}
use hotel_crm.Memory.Server.{Memory, Signed, memory, memory_jwt}

abbrev pub user : String → String → Role → UserRow
user id email role = record {
  id = id;
  tenant_id = "t";
  email = email;
  password_hash = "secret";
  full_name = email;
  role = role;
  permissions = default_permissions role;
  phone = none;
  is_active = true;
  last_login_at = none;
  created_at = 0;
  updated_at = 0;
}

abbrev pub ann : UserRow
ann = user "a" "ann@hotel" staff

abbrev pub bob : UserRow
bob = user "b" "bob@hotel" admin

abbrev pub cem : UserRow
cem = user "c" "cem@hotel" admin

abbrev pub start : Memory
start = record {
  users = ann ∷ bob ∷ cem ∷ [];
  tokens = [];
  redis = λ k. none;
  reads = 0;
  drawn = 0;
}

abbrev pub subject : TokenSubject
subject = record {
  id = "a";
  email = "ann@hotel";
  tenant_id = "t";
  role = "staff";
  permissions = default_permissions staff;
}

abbrev pub token : Signed
token = new_token memory subject "f" start

-- The token is issued, and then used.
abbrev pub issued : Memory
issued = (issue memory subject "f" start).1

abbrev pub used : Memory
used = (consume memory token issued).1

abbrev pub consumed : ConsumedRefreshToken
consumed = record { user_id = "a"; tenant_id = "t"; family_id = "f" }

-- A token for an administrator of a tenant.
abbrev pub admin_token : String → Signed
admin_token tenant =
    memory_jwt.sign "access-secret" "24h" 0
      (access_claims (record subject { tenant_id = tenant; role = "admin" }))

abbrev pub newcomer : CreateUserDto
newcomer = record {
  email = "dan@hotel";
  password = "password";
  full_name = "Dan";
  role = absent;
  permissions = absent;
  phone = absent;
}

-- A user's role becomes a manager's.
abbrev pub demotion : UpdateUserDto
demotion = record {
  full_name = absent;
  phone = absent;
  role = value manager;
  permissions = absent;
  is_active = absent;
}
