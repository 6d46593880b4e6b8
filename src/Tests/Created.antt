-- ===== src/Tests/Created.antt =====
-- A user who is created with the defaults of a role.
use hotel_crm.Prelude.{◌≡◌, refl, true, some, Memᴰ}
use hotel_crm.Schema.{UserRow, manager}
use hotel_crm.Platform.Results.{Exception, ok, err}
use hotel_crm.Tenant.{setting_of, with_tenant, with_current_tenant, require_tenant_id}
use hotel_crm.Auth.Permissions.{default_permissions}
use hotel_crm.Users.Types.{PublicUser, CreateUserDto, absent, value, public_user, or_default}
use hotel_crm.Users.Repository.{find_by_email_with_secret, insert_new, insert_user}
use hotel_crm.Users.Repository
use hotel_crm.Users.Service.{create}
use hotel_crm.Users.Rows.{resolve}
use hotel_crm.Users.Created.{find-create, create_taken, created_row}
use hotel_crm.Http.Errors.{resolve_error}
use hotel_crm.Tests.Worlds.{start, ann}
use hotel_crm.Memory.Server.{Memory, memory}

abbrev dora : CreateUserDto
dora = record {
  email = "dora@hotel";
  password = "password";
  full_name = "Dora";
  role = value manager;
  permissions = absent;
  phone = absent;
}

tenant : resolve memory (some "t") ≡ ok ("t", some "t")
unfolding resolve setting_of
tenant = refl

abbrev made : PublicUser
made = public_user (created_row memory (some "t") "t" "t" dora start tenant refl)

abbrev after_creation : Memory
after_creation = (create memory (some "t") dora start).1

create_run : create memory (some "t") dora start ≡ (ok made, after_creation)
unfolding create Repository.create insert_new insert_user with_current_tenant require_tenant_id
    with_tenant setting_of
create_run = refl

find-create_example :
    (r : UserRow) × (find_by_email_with_secret memory (some "t") "dora@hotel" after_creation
      ≡ (ok (some r), after_creation))
    × (memory.bcrypt_compare "password" r.password_hash ≡ true)
    × (made ≡ public_user r)
    × (r.permissions ≡ or_default dora.permissions (default_permissions r.role))
find-create_example =
    find-create memory (some "t") "t" "t" dora start tenant refl made after_creation create_run

-- Ann's address again.
abbrev second_ann : CreateUserDto
second_ann = record dora { email = ann.email }

create_taken_example :
    ((y : Exception) × ((create memory (some "t") second_ann start).0 ≡ err y)
      × ((resolve_error y).status ≡ 409))
    × ((create memory (some "t") second_ann start).1.users ≡ start.users)
    × ((create memory (some "t") second_ann start).1.tokens ≡ start.tokens)
create_taken_example =
    create_taken memory (some "t") "t" "t" second_ann start tenant refl ann (Memᴰ.head refl) refl
      refl
