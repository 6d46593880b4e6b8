-- ===== src/Users/Created.antt =====
-- A user who was created can log in.
use hotel_crm.Prelude.{
  ◌+◌, ◌≡◌, refl, sym, ap, ◌∙◌, subst, String, true, false, Option, none, some, ◌∷◌, All, All-at,
  arith, str_eq-true, str_eq_refl, Memᴰ, Option-cases, inl, inr,
}
use hotel_crm.Schema.{UserRow, user_conflict, staff}
use hotel_crm.Platform.{Platform, World}
use hotel_crm.Platform.Results.{Exception, ok, err}
use hotel_crm.Auth.Permissions.{default_permissions}
use hotel_crm.Tenant.{rolled_back}
use hotel_crm.Users.Types.{PublicUser, CreateUserDto, public_user, or_default, NewUserRecord}
use hotel_crm.Users.Repository.{
  user_policy, has_email, new_user_row, insert_user, insert_new, find_by_email_with_secret,
}
use hotel_crm.Users.Repository
use hotel_crm.Users.Service.{create, bcrypt_rounds}
use hotel_crm.Http.Errors.{resolve_error, map_prisma_error}
use hotel_crm.Users.Rows.{user_rows, resolve, with_current_tenant-ok}

module _ {U T R K : Type 0} (p : Platform U T R K) (current : Option String) (t u : String)
    (dto : CreateUserDto) (w : World U T R) (e : resolve p current ≡ ok (t, some u))
    (f : p.to_uuid t ≡ ok u) where
  abbrev pub new_user : NewUserRecord
  new_user = record {
    email = dto.email;
    password_hash = p.bcrypt_hash (p.random_uuid w.drawn) bcrypt_rounds dto.password;
    full_name = dto.full_name;
    role = or_default dto.role staff;
    permissions = or_default dto.permissions (default_permissions (or_default dto.role staff));
    phone = dto.phone;
  }

  abbrev pub created_row : UserRow
  created_row = new_user_row u (p.random_uuid (w.drawn + 1)) (p.clock w.reads) new_user

  abbrev salted : World U T R
  salted = record w { drawn = w.drawn + 1 }

  create_lem : create p current dto w ≡ rolled_back salted (insert_new p new_user (some u) t salted)
  unfolding create Repository.create
  create_lem = with_current_tenant-ok p current (some u) t (insert_new p new_user) salted e

  insert_new_lem :
      (s' : U)
      → p.users.create (user_policy (some u)) user_conflict created_row w.users ≡ some s'
      → insert_new p new_user (some u) t salted ≡ (
        ok (public_user created_row),
        record w { users = s'; reads = w.reads + 1; drawn = w.drawn + 1 + 1 },
      )
  unfolding insert_new insert_user
  insert_new_lem s' g = rw (f, insert_user, g)

  -- What is thrown where the table refuses the row.
  abbrev insert_exception : Exception
  insert_exception = p.users.refusal (user_policy (some u)) user_conflict created_row w.users

  insert_new_refused :
      p.users.create (user_policy (some u)) user_conflict created_row w.users ≡ none
      → insert_new p new_user (some u) t salted
        ≡ (err insert_exception, record w { reads = w.reads + 1; drawn = w.drawn + 1 + 1 })
  unfolding insert_new insert_user
  insert_new_refused g = rw (f, insert_user, g)

  create_refused :
      p.users.create (user_policy (some u)) user_conflict created_row w.users ≡ none
      → create p current dto w
        ≡ (err insert_exception, record w { reads = w.reads + 1; drawn = w.drawn + 1 + 1 })
  create_refused g = create_lem ∙ rw (insert_new_refused g)

  is_new :
      (r : UserRow)
      → Memᴰ r (created_row ∷ user_rows p w)
      → All (λ x. user_conflict created_row x ≡ false) (user_rows p w)
      → user_policy (some u) r ≡ true
      → has_email dto.email r ≡ true
      → r ≡ created_row
  is_new r (Memᴰ.head h) apart a b = h
  is_new r (Memᴰ.tail m) apart a b =
      let other = All-at _ (user_rows p w) apart m in
      absurd (
        ground (
          arith,
          other,
          str_eq-true r.tenant_id u a,
          str_eq-true r.email dto.email b,
          str_eq_refl r.tenant_id,
          str_eq_refl r.email,
        ))

  -- No other user under the tenant has the address.
  find_new :
      (v : U)
      → p.users.rows v ≡ created_row ∷ user_rows p w
      → All (λ x. user_conflict created_row x ≡ false) (user_rows p w)
      → p.users.find_first (user_policy (some u)) (has_email dto.email) v ≡ some created_row
  find_new v stored apart =
      elim (Option-cases (p.users.find_first (user_policy (some u)) (has_email dto.email) v)) [
        | inl g ↦
            let missed =
              subst (All _) stored
                (p.users.find_first-none (user_policy (some u)) (has_email dto.email) v g) in
            absurd (ground (arith, missed.0, str_eq_refl u, str_eq_refl dto.email))
        | inr (r, g) ↦
            let (m, a, b) =
              p.users.find_first-some (user_policy (some u)) (has_email dto.email) v r g in
            g ∙ ap some (is_new r (subst (Memᴰ r) stored m) apart a b)
      ]

  -- The creation of a user with the address of another user of the tenant, whose id is a `uuid`, is
  -- answered by the filter with 409, and users and refresh tokens stay as they are.
  pub create_taken :
      (x : UserRow)
      → Memᴰ x (user_rows p w)
      → x.tenant_id ≡ u
      → x.email ≡ dto.email
      → ((y : Exception) × ((create p current dto w).0 ≡ err y) × ((resolve_error y).status ≡ 409))
        × ((create p current dto w).1.users ≡ w.users)
        × ((create p current dto w).1.tokens ≡ w.tokens)
  unfolding resolve_error map_prisma_error
  create_taken x m a b =
      let clash : user_conflict created_row x ≡ true =
        ground (arith, a, b, str_eq_refl u, str_eq_refl dto.email) in
      elim (Option-cases
        (p.users.create (user_policy (some u)) user_conflict created_row w.users)) [
          | inr (s', g) ↦
              let (_, _, apart) =
                p.users.rows-create (user_policy (some u)) user_conflict created_row w.users s' g in
              let none_alike = All-at _ (user_rows p w) apart m in absurd (cc (clash, none_alike))
          | inl g ↦
              let thrown =
                p.users.refusal_unique (user_policy (some u)) user_conflict created_row x w.users
                  (str_eq_refl u) m clash in
              rw (create_refused g) ((insert_exception, refl, rw thrown refl), refl, refl)
        ]

  -- After a successful creation of a user in a tenant whose id is a `uuid`, the look-up of a log-in
  -- by the address finds one row: the password that was given matches it, the answer described it,
  -- and its permissions are the ones given or else the defaults of its role.
  pub find-create :
      (x : PublicUser) (w' : World U T R)
      → create p current dto w ≡ (ok x, w')
      → (r : UserRow) × (find_by_email_with_secret p current dto.email w' ≡ (ok (some r), w'))
        × (p.bcrypt_compare dto.password r.password_hash ≡ true)
        × (x ≡ public_user r)
        × (r.permissions ≡ or_default dto.permissions (default_permissions r.role))
  unfolding find_by_email_with_secret
  find-create x w' h =
      elim (Option-cases
        (p.users.create (user_policy (some u)) user_conflict created_row w.users)) [
          | inl g ↦ absurd (cc (ap (λ o. o.0) (create_refused g), ap (λ o. o.0) h))
          | inr (s', g) ↦
              let (rows, a, apart) =
                p.users.rows-create (user_policy (some u)) user_conflict created_row w.users s' g in
              let made = insert_new_lem s' g in
              let both : (ok x, w') ≡ (
                ok (public_user created_row),
                record w { users = s'; reads = w.reads + 1; drawn = w.drawn + 1 + 1 },
              ) =
                sym h ∙ (create_lem ∙ rw made) in
              let stored : p.users.rows w'.users ≡ created_row ∷ user_rows p w =
                ap (λ o. p.users.rows o.1.users) both ∙ rows in
              let found : p.users.find_first (user_policy (some u)) (has_email dto.email) w'.users
                  ≡ some created_row =
                find_new w'.users stored apart in
              (
                created_row,
                with_current_tenant-ok p current (some u) t _ w' e ∙ rw found,
                p.compare-hash (p.random_uuid w.drawn) bcrypt_rounds dto.password,
                ground (arith, both),
                refl,
              )
        ]
