-- ===== src/Users/Repository.antt =====
-- backend/src/users/users.repository.ts, with common/http/page-request.ts. Each function is one
-- transaction; `current` is the tenant of the request.
use hotel_crm.Prelude.{
  ℕ, ◌-◌, ◌*◌, String, Bool, true, false, ◌&&◌, ◌||◌, Option, none, some, List, map, ltb, ◌==◌,
  if◌then◌else◌, str_eq,
}
use mathlib.Core.Option
use hotel_crm.Schema.{UserRow, Role, admin, user_conflict}
use hotel_crm.Platform.{Platform, World, now, draw, as_uuid}
use hotel_crm.Platform.Results.{ok, err, Action, pure, throw, prisma, unexpected, ◌>>=◌, ◌>>◌}
use hotel_crm.Tenant.{admits, with_tenant, with_current_tenant}
use hotel_crm.Users.Types.{
  PublicUser, public_user, UserUpdateRecord, NewUserRecord, updated_row, has_null, phone_of,
}

pub record PageRequest : Type 0 where
  pub page : ℕ
  pub limit : ℕ

-- `page` is at least 1.
abbrev pub skip_for : PageRequest → ℕ
skip_for r = (r.page - 1) * r.limit

pub record UserPage : Type 0 where
  pub items : List PublicUser
  pub total : ℕ

abbrev pub user_policy : Option String → UserRow → Bool
user_policy setting r = admits setting r.tenant_id

abbrev is_admin : Role → Bool
is_admin admin = true
is_admin _ = false

-- The filters of the statements.
abbrev pub has_id : String → UserRow → Bool
has_id id r = str_eq r.id id

abbrev pub has_email : String → UserRow → Bool
has_email email r = str_eq r.email email

abbrev pub is_active_admin : UserRow → Bool
is_active_admin r = is_admin r.role && r.is_active

abbrev pub everyone : UserRow → Bool
everyone r = true

abbrev pub new_user_row : String → String → ℕ → NewUserRecord → UserRow
new_user_row tenant_id id at d = record {
  id = id;
  tenant_id = tenant_id;
  email = d.email;
  password_hash = d.password_hash;
  full_name = d.full_name;
  role = d.role;
  permissions = d.permissions;
  phone = phone_of d.phone;
  is_active = true;
  last_login_at = none;
  created_at = at;
  updated_at = at;
}

abbrev pub logged_in : ℕ → UserRow → UserRow
logged_in at r = record r { last_login_at = some at; updated_at = at }

module _ {U T R K : Type 0} (p : Platform U T R K) where
  -- `orderBy: [{ createdAt: 'desc' }, { id: 'desc' }]`
  abbrev pub newest_first : UserRow → UserRow → Bool
  newest_first a b =
      ltb b.created_at a.created_at || ((a.created_at == b.created_at) && p.uuid_before b.id a.id)

  unfoldable pub find_page : Option String → PageRequest → Action (World U T R) UserPage
  find_page current page = with_current_tenant p current λ setting _ w. (
    ok (record {
      items =
          map public_user (
            p.users.find_many (user_policy setting) newest_first (skip_for page) page.limit
              w.users);
      total = p.users.count_rows (user_policy setting) everyone w.users;
    }),
    w,
  )

  -- The first row under the policy that a filter picks.
  unfoldable pub select_user :
      Option String → (UserRow → Bool) → Action (World U T R) (Option PublicUser)
  select_user setting where_ w =
      (ok (Option.map public_user (p.users.find_first (user_policy setting) where_ w.users)), w)

  unfoldable pub find_by_id : Option String → String → Action (World U T R) (Option PublicUser)
  find_by_id current id =
      with_current_tenant p current
        λ setting _. do key ← as_uuid p id; select_user setting (has_id key)

  unfoldable pub count_active_admins : Option String → Action (World U T R) ℕ
  count_active_admins current =
      with_current_tenant p current
        λ setting _ w. (ok (p.users.count_rows (user_policy setting) is_active_admin w.users), w)

  -- `updateMany`; the client refuses a `null` for a column that takes none.
  unfoldable pub update_users :
      Option String → (UserRow → Bool) → (ℕ → UserRow → UserRow) → Action (World U T R) ℕ
  update_users setting where_ f = do
    at ← now p
    λ w.
        let (s, count) = p.users.update_many (user_policy setting) where_ (f at) w.users in
        (ok count, record w { users = s })

  unfoldable pub reread : Option String → String → ℕ → Action (World U T R) (Option PublicUser)
  reread setting key count = if count == 0 then pure none else select_user setting (has_id key)

  unfoldable pub update :
      Option String → String → UserUpdateRecord → Action (World U T R) (Option PublicUser)
  update current id d = with_current_tenant p current λ setting _. do
    if has_null d then throw (unexpected "PrismaClientValidationError") else pure tt
    key ← as_uuid p id
    count ← update_users setting (has_id key) (λ at. updated_row at d)
    reread setting key count

  unfoldable pub insert_user : Option String → UserRow → Action (World U T R) PublicUser
  insert_user setting row w =
      elim (p.users.create (user_policy setting) user_conflict row w.users) [
        | none ↦ (err (p.users.refusal (user_policy setting) user_conflict row w.users), w)
        | some s ↦ (ok (public_user row), record w { users = s })
      ]

  unfoldable pub insert_new :
      NewUserRecord → Option String → String → Action (World U T R) PublicUser
  insert_new d setting tenant = do
    tenant_id ← as_uuid p tenant
    id ← draw p
    at ← now p
    insert_user setting (new_user_row tenant_id id at d)

  unfoldable pub create : Option String → NewUserRecord → Action (World U T R) PublicUser
  create current d = with_current_tenant p current (insert_new d)

  unfoldable pub find_by_id_in_tenant : String → String → Action (World U T R) (Option PublicUser)
  find_by_id_in_tenant id tenant =
      with_tenant p tenant λ setting. do key ← as_uuid p id; select_user setting (has_id key)

  unfoldable pub find_by_email_with_secret :
      Option String → String → Action (World U T R) (Option UserRow)
  find_by_email_with_secret current email =
      with_current_tenant p current
        λ setting _ w. (ok (p.users.find_first (user_policy setting) (has_email email) w.users), w)

  -- `update` by primary key: P2025 where no row is visible. The row that it returns is not used.
  unfoldable pub mark_logged_in : Option String → String → Action (World U T R) (Unit {0})
  mark_logged_in current id = with_current_tenant p current λ setting _. do
    key ← as_uuid p id
    count ← update_users setting (has_id key) logged_in
    if count == 0 then throw (prisma "P2025") else pure tt
