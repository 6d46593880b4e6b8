-- ===== src/Users/Written.antt =====
-- What a successful update returns.
use hotel_crm.Prelude.{
  ◌≡◌, refl, sym, Bool, false, ◌||◌, str_eq-true, ap, ◌∙◌, subst, String, true, Option, none, some,
  List, ◌&&◌, arith, ◌==◌, if◌then◌else◌, Memᴰ, Memᴰ-change, Bool-cases, Option-cases, inl, inr,
}
use mathlib.Core.Option
use hotel_crm.Schema.{UserRow, Role}
use hotel_crm.Platform.{Platform, World}
use hotel_crm.Platform.Results.{ok}
use hotel_crm.Auth.Permissions.{default_permissions}
use hotel_crm.Users.Types.{
  PublicUser, UpdateUserDto, Field, absent, null, value, is_null, nullable, public_user,
  updated_row, or_default, has_null,
}
use hotel_crm.Users.Repository.{user_policy, has_id}
use hotel_crm.Users.Service.{update, update_record, or_not_found, seeded}
use hotel_crm.Users.Rows.{user_rows, resolve, written}
use hotel_crm.Users.Update.{update-cases}

-- What an optional property of a request makes of a column that takes no NULL.
abbrev pub Sets : {A : Type 0} → Field A → A → A → Type 0
Sets absent old new = new ≡ old
Sets null old new = ⊥
Sets (value a) old new = new ≡ a

-- What it makes of the column of the phone.
abbrev pub SetsPhone : Field String → Option String → Option String → Type 0
SetsPhone absent old new = new ≡ old
SetsPhone null old new = new ≡ none
SetsPhone (value a) old new = new ≡ some a

-- What a role and a list of permissions in a request make of the permissions.
abbrev pub SetsPermissions : Field Role → Field (List String) → List String → List String → Type 0
SetsPermissions role (value l) old new = new ≡ l
SetsPermissions (value r) absent old new = new ≡ default_permissions r
SetsPermissions (value r) null old new = new ≡ default_permissions r
SetsPermissions absent absent old new = new ≡ old
SetsPermissions absent null old new = ⊥
SetsPermissions null absent old new = ⊥
SetsPermissions null null old new = ⊥

-- The columns that no request names.
abbrev pub IsAsBefore : UserRow → PublicUser → Type 0
IsAsBefore x u =
    (u.id ≡ x.id)
    × (u.tenant_id ≡ x.tenant_id)
    × (u.email ≡ x.email)
    × (u.last_login_at ≡ x.last_login_at)
    × (u.created_at ≡ x.created_at)

or_default-Sets :
    {A : Type 0} (f : Field A) (old : A) → is_null f ≡ false → Sets f old (or_default f old)
or_default-Sets absent old n = refl
or_default-Sets null old n = absurd (ground arith)
or_default-Sets (value a) old n = refl

nullable-SetsPhone : (f : Field String) (old : Option String) → SetsPhone f old (nullable f old)
nullable-SetsPhone absent old = refl
nullable-SetsPhone null old = refl
nullable-SetsPhone (value a) old = refl

seeded-SetsPermissions :
    (role : Field Role) (f : Field (List String)) (old : List String)
    → is_null role ≡ false
    → is_null (seeded role f) ≡ false
    → SetsPermissions role f old (or_default (seeded role f) old)
seeded-SetsPermissions absent absent old n k = refl
seeded-SetsPermissions absent null old n k = absurd (ground arith)
seeded-SetsPermissions absent (value l) old n k = refl
seeded-SetsPermissions null f old n k = absurd (ground arith)
seeded-SetsPermissions (value r) absent old n k = refl
seeded-SetsPermissions (value r) null old n k = refl
seeded-SetsPermissions (value r) (value l) old n k = refl

nulls :
    (name : Field String) (role : Field Role) (f : Field (List String)) (active : Field Bool)
    → (is_null name || is_null role || is_null (seeded role f) || is_null active) ≡ false
    → (is_null name ≡ false)
      × (is_null role ≡ false)
      × (is_null active ≡ false)
      × (is_null (seeded role f) ≡ false)
nulls name role f active h = (ground arith, ground arith, ground arith, ground arith)

module _ {U T R K : Type 0} (p : Platform U T R K) (current : Option String) (id : String)
    (dto : UpdateUserDto) (actor : String) (w : World U T R) where
  found_after :
      (s : Option String) (key : String) (y : UserRow)
      → p.users.find_first (user_policy s) (has_id key) (written p s w key (update_record dto)).0
        ≡ some y
      → (x : UserRow) × Memᴰ x (user_rows p w)
        × (user_policy s x ≡ true)
        × (has_id key x ≡ true)
        × (y ≡ updated_row (p.clock w.reads) (update_record dto) x)
  found_after s key y f =
      let (m, a, b) =
        p.users.find_first-some (user_policy s) (has_id key)
          (written p s w key (update_record dto)).0 y f in
      let rows =
        p.users.rows-update_many (user_policy s) (has_id key)
          (updated_row (p.clock w.reads) (update_record dto)) w.users (λ r. refl) in
      let (x, n, e) =
        Memᴰ-change _ (updated_row (p.clock w.reads) (update_record dto)) (user_rows p w)
          (subst (Memᴰ y) rows m) in
      elim (Bool-cases (user_policy s x && has_id key x)) [
        | inl q ↦ (x, n, ground arith, ground arith, ground (arith, e, q))
        | inr q ↦ absurd (ground (arith, e, q, a, b))
      ]

  returned_row :
      (s : Option String) (key : String) (u : PublicUser)
      → (or_not_found p
          (if (written p s w key (update_record dto)).1 == 0
            then none
            else Option.map public_user (
                p.users.find_first
                  (user_policy s)
                  (has_id key)
                  (written p s w key (update_record dto)).0))
          w).0
        ≡ ok u
      → (y : UserRow) × (p.users.find_first
            (user_policy s)
            (has_id key)
            (written p s w key (update_record dto)).0
          ≡ some y)
        × (u ≡ public_user y)
  unfolding or_not_found
  returned_row s key u h =
      elim (Option-cases (
        p.users.find_first (user_policy s) (has_id key)
          (written p s w key (update_record dto)).0)) [
            | inl f ↦ elim (Bool-cases ((written p s w key (update_record dto)).1 == 0)) [
              | inl c ↦ absurd (ground arith)
              | inr c ↦ absurd (ground arith)
            ]
            | inr (y, f) ↦ elim (Bool-cases ((written p s w key (update_record dto)).1 == 0)) [
              | inl c ↦ absurd (ground arith)
              | inr c ↦ (y, f, ground arith)
            ]
          ]

  update-row :
      (u : PublicUser) (w' : World U T R)
      → update p current id dto actor w ≡ (ok u, w')
      → (s : Option String) × (t : String) × (key : String) × (x : UserRow) × (resolve p current
          ≡ ok (t, s))
        × (p.to_uuid id ≡ ok key)
        × Memᴰ x (user_rows p w)
        × (user_policy s x ≡ true)
        × (has_id key x ≡ true)
        × (has_null (update_record dto) ≡ false)
        × (u ≡ public_user (updated_row (p.clock w.reads) (update_record dto) x))
  update-row u w' h = elim (update-cases p current id dto actor w) [
    | inl (x, f) ↦ absurd (cc (ap (λ o. o.0) f, ap (λ o. o.0) h))
    | inr c ↦
        let (y, f, e) = returned_row c.s c.key u (sym c.result ∙ ap (λ o. o.0) h) in
        let (x, m, a, b, g) = found_after c.s c.key y f in
        (c.s, c.t, c.key, x, c.tenant, c.canonical, m, a, b, c.no_null, e ∙ ap public_user g)
  ]

  -- After a successful update the request's tenant has a row of the given id, as it was before,
  -- such that the user that is returned has its id, tenant, address, last log-in and creation; the
  -- time of the update; the name, role and activity of the request, or the row's where the request
  -- names none; the phone of the request, or the row's, or none where the request has null; and the
  -- permissions of the request, or the default permissions of the role that the request sets, or the
  -- row's. A request with null for a name, a role or an activity is not successful, nor one with
  -- null for the permissions that sets no role.
  pub update-ok :
      (u : PublicUser) (w' : World U T R)
      → update p current id dto actor w ≡ (ok u, w')
      → (s : Option String) × (t : String) × (key : String) × (x : UserRow) × (resolve p current
          ≡ ok (t, s))
        × (p.to_uuid id ≡ ok key)
        × Memᴰ x (user_rows p w)
        × (user_policy s x ≡ true)
        × (x.id ≡ key)
        × IsAsBefore x u
        × (u.updated_at ≡ p.clock w.reads)
        × Sets dto.full_name x.full_name u.full_name
        × Sets dto.role x.role u.role
        × Sets dto.is_active x.is_active u.is_active
        × SetsPhone dto.phone x.phone u.phone
        × SetsPermissions dto.role dto.permissions x.permissions u.permissions
  update-ok u w' h =
      let (s, t, key, x, tenant, canonical, m, a, b, n, e) = update-row u w' h in
      let (name, role, active, permissions) =
        nulls dto.full_name dto.role dto.permissions dto.is_active n in
      rw e (
        s,
        t,
        key,
        x,
        tenant,
        canonical,
        m,
        a,
        str_eq-true x.id key b,
        (refl, refl, refl, refl, refl),
        refl,
        or_default-Sets dto.full_name x.full_name name,
        or_default-Sets dto.role x.role role,
        or_default-Sets dto.is_active x.is_active active,
        nullable-SetsPhone dto.phone x.phone,
        seeded-SetsPermissions dto.role dto.permissions x.permissions role permissions,
      )
