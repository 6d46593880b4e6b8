-- ===== src/Users/Service.antt =====
-- backend/src/users/users.service.ts, with common/http/paginated-result.ts.
use hotel_crm.Prelude.{
  ℕ, ◌*◌, String, Bool, true, false, not, ◌&&◌, ◌||◌, Option, none, some, List, leb, ltb,
  if◌then◌else◌, str_eq,
}
use hotel_crm.Schema.{UserRow, Role, admin, manager, staff}
use hotel_crm.Platform.{Platform, World, draw}
use hotel_crm.Platform.Results.{Action, pure, throw, not_found, forbidden, conflict, ◌>>=◌, ◌>>◌}
use hotel_crm.Auth.Permissions.{default_permissions}
use hotel_crm.Users.Types.{
  Field, absent, null, value, or_default, PublicUser, CreateUserDto, UpdateUserDto,
  UserUpdateRecord,
}
use hotel_crm.Users.Repository.{PageRequest, UserPage, count_active_admins}
use hotel_crm.Users.Repository

pub record PaginatedResult (A : Type 0) : Type 0 where
  pub items : List A
  pub page : ℕ
  pub limit : ℕ
  pub total : ℕ

abbrev pub has_more : {A : Type 0} → PaginatedResult A → Bool
has_more r = ltb (r.page * r.limit) r.total

-- backend/src/auth/password.constants.ts
abbrev pub bcrypt_rounds : ℕ
bcrypt_rounds = 12

abbrev pub user_not_found : String
user_not_found = "User not found"

abbrev pub own_deactivation : String
own_deactivation = "You cannot deactivate your own account"

abbrev pub own_role : String
own_role = "You cannot change your own role"

abbrev pub last_admin : String
last_admin = "This is the last active admin — promote another admin first"

abbrev same_role : Role → Role → Bool
same_role admin admin = true
same_role manager manager = true
same_role staff staff = true
same_role _ _ = false

-- `dto.isActive === false`
abbrev pub deactivates : UpdateUserDto → Bool
deactivates dto = elim dto.is_active [ value false ↦ true | _ ↦ false ]

-- `dto.role !== undefined && dto.role !== role`
abbrev pub changes_role : UpdateUserDto → Role → Bool
changes_role dto r = elim dto.role [ absent ↦ false | null ↦ true | value s ↦ not (same_role s r) ]

abbrev pub drops_admin : UpdateUserDto → PublicUser → Bool
drops_admin dto target =
    same_role target.role admin && target.is_active && (deactivates dto || changes_role dto admin)

-- The record that is written: a new role without permissions brings its defaults, and `null`
-- counts as no permissions.
abbrev pub seeded : Field Role → Field (List String) → Field (List String)
seeded (value r) absent = value (default_permissions r)
seeded (value r) null = value (default_permissions r)
seeded _ permissions = permissions

abbrev pub update_record : UpdateUserDto → UserUpdateRecord
update_record dto = record dto { permissions = seeded dto.role dto.permissions }

module _ {U T R K : Type 0} (p : Platform U T R K) where
  unfoldable pub or_not_found : Option PublicUser → Action (World U T R) PublicUser
  or_not_found none = throw (not_found user_not_found)
  or_not_found (some user) = pure user

  unfoldable pub find_page :
      Option String → PageRequest → Action (World U T R) (PaginatedResult PublicUser)
  find_page current query = do
    found ← Repository.find_page p current query
    pure (record {
      items = found.items;
      page = query.page;
      limit = query.limit;
      total = found.total;
    })

  unfoldable pub find_by_id : Option String → String → Action (World U T R) PublicUser
  unfolding or_not_found
  find_by_id current id = do user ← Repository.find_by_id p current id; or_not_found user

  unfoldable pub create : Option String → CreateUserDto → Action (World U T R) PublicUser
  create current dto = do
    let role = or_default dto.role staff
    salt ← draw p
    Repository.create p current (record {
      email = dto.email;
      password_hash = p.bcrypt_hash salt bcrypt_rounds dto.password;
      full_name = dto.full_name;
      role = role;
      permissions = or_default dto.permissions (default_permissions role);
      phone = dto.phone;
    })

  unfoldable pub assert_not_self_lockout :
      String → String → UpdateUserDto → PublicUser → Action (World U T R) (Unit {0})
  assert_not_self_lockout id actor dto target =
      if not (str_eq id actor)
      then pure tt
      else (if deactivates dto
          then throw (forbidden own_deactivation)
          else (if changes_role dto target.role then throw (forbidden own_role) else pure tt))

  unfoldable pub enough_admins : ℕ → Action (World U T R) (Unit {0})
  enough_admins active_admins = if leb active_admins 1 then throw (conflict last_admin) else pure tt

  unfoldable pub assert_an_admin_remains :
      Option String → UpdateUserDto → PublicUser → Action (World U T R) (Unit {0})
  unfolding enough_admins
  assert_an_admin_remains current dto target =
      if not (drops_admin dto target)
      then pure tt
      else (count_active_admins p current >>= enough_admins)

  unfoldable pub update :
      Option String → String → UpdateUserDto → String → Action (World U T R) PublicUser
  unfolding or_not_found
  update current id dto actor = do
    found ← Repository.find_by_id p current id
    target ← or_not_found found
    assert_not_self_lockout id actor dto target
    assert_an_admin_remains current dto target
    updated ← Repository.update p current id (update_record dto)
    or_not_found updated

  abbrev pub find_by_email_with_secret :
      Option String → String → Action (World U T R) (Option UserRow)
  find_by_email_with_secret current email = Repository.find_by_email_with_secret p current email

  abbrev pub find_by_id_in_tenant : String → String → Action (World U T R) (Option PublicUser)
  find_by_id_in_tenant id tenant_id = Repository.find_by_id_in_tenant p id tenant_id

  abbrev pub mark_logged_in : Option String → String → Action (World U T R) (Unit {0})
  mark_logged_in current id = Repository.mark_logged_in p current id
