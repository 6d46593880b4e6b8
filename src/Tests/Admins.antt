-- ===== src/Tests/Admins.antt =====
-- Updates of users on the platform in memory.
use hotel_crm.Prelude.{
  Option, ◌≡◌, ◌≢◌, ◌&&◌, refl, arith, ap, String, str_eq, true, false, none, some, [], Memᴰ, All,
}
use hotel_crm.Schema.{UserRow, admin, manager}
use hotel_crm.Platform.Results.{ok}
use hotel_crm.Tenant.{setting_of, with_tenant, with_current_tenant, require_tenant_id}
use hotel_crm.Users.Types.{PublicUser, public_user, UpdateUserDto, absent, null, value}
use hotel_crm.Users.Repository.{
  user_policy, has_id, find_by_id, select_user, update_users, reread, count_active_admins,
}
use hotel_crm.Users.Repository
use hotel_crm.Users.Service.{
  update, or_not_found, assert_not_self_lockout, assert_an_admin_remains, enough_admins,
}
use hotel_crm.Users.Rows.{UniqueUsers, user_rows, resolve}
use hotel_crm.Users.Written.{IsAsBefore, Sets, SetsPhone, SetsPermissions, update-ok}
use hotel_crm.Auth.Permissions.{default_permissions}
use hotel_crm.Users.Own.{update-own, update-own_respelled, deactivation}
use hotel_crm.Tests.Worlds.{demotion, cem, start, ann, bob}
use hotel_crm.Memory.Server.{Memory, memory}

unique : UniqueUsers (user_rows memory start)
unique = ((refl, (refl, tt)), ((refl, tt), (tt, tt)))

abbrev renaming : UpdateUserDto
renaming = record {
  full_name = value "Bob";
  phone = null;
  role = value admin;
  permissions = value [];
  is_active = absent;
}

abbrev renamed : UserRow
renamed = record bob { full_name = "Bob"; phone = none; permissions = []; updated_at = 0 }

listed : Memᴰ renamed (user_rows memory (update memory (some "t") "b" renaming "b" start).1)
unfolding update or_not_found assert_not_self_lockout assert_an_admin_remains enough_admins
    Repository.update find_by_id select_user update_users reread count_active_admins
    with_current_tenant require_tenant_id with_tenant setting_of
listed = Memᴰ.tail (Memᴰ.head refl)

update-own_example : (renamed.role ≡ bob.role) × (bob.is_active ≡ true → renamed.is_active ≡ true)
update-own_example =
    update-own memory (some "t") "b" renaming start bob renamed unique (Memᴰ.tail (Memᴰ.head refl))
      listed refl

tenant : resolve memory (some "t") ≡ ok ("t", some "t")
unfolding resolve setting_of
tenant = refl

respelled : ◌≢◌ {A = String} "A" "a"
respelled e = ground (arith, ap (λ s. str_eq s "a") e)

plain : ann.role ≢ admin
plain e = ground arith

update-own_respelled_example :
    All
      (λ x. (user_policy (some "t") x && has_id "a" x && x.is_active) ≡ false)
      (user_rows memory (update memory (some "t") "A" deactivation "a" start).1)
update-own_respelled_example =
    update-own_respelled memory (some "t") (some "t") "t" "A" "a" start ann tenant respelled refl
      refl plain

abbrev demoted : PublicUser
demoted = public_user (record cem { role = manager; permissions = default_permissions manager })

abbrev after_demotion : Memory
after_demotion = (update memory (some "t") "c" demotion "b" start).1

demotion_run : update memory (some "t") "c" demotion "b" start ≡ (ok demoted, after_demotion)
unfolding update or_not_found assert_not_self_lockout assert_an_admin_remains enough_admins
    Repository.update find_by_id select_user update_users reread count_active_admins
    with_current_tenant require_tenant_id with_tenant setting_of
demotion_run = refl

update-ok_example :
    (s : Option String) × (t : String) × (key : String) × (x : UserRow) × (resolve memory (some "t")
      ≡ ok (t, s))
    × (memory.to_uuid "c" ≡ ok key)
    × Memᴰ x (user_rows memory start)
    × (user_policy s x ≡ true)
    × (x.id ≡ key)
    × IsAsBefore x demoted
    × (demoted.updated_at ≡ 0)
    × Sets demotion.full_name x.full_name demoted.full_name
    × Sets demotion.role x.role demoted.role
    × Sets demotion.is_active x.is_active demoted.is_active
    × SetsPhone demotion.phone x.phone demoted.phone
    × SetsPermissions demotion.role demotion.permissions x.permissions demoted.permissions
update-ok_example =
    update-ok memory (some "t") "c" demotion "b" start demoted after_demotion demotion_run
