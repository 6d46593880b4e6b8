-- ===== src/Users/Update.antt =====
-- What an update of a user has passed before it writes.
use hotel_crm.Prelude.{
  ◌<◌, ◌≡◌, refl, ap, ◌⊎◌, String, true, false, Option, none, some, arith, str_eq, leb, ◌==◌,
  if◌then◌else◌, Bool-cases, Option-cases, inl, inr,
}
use mathlib.Core.Option
use hotel_crm.Schema.{UserRow}
use hotel_crm.Platform.{Platform, World}
use hotel_crm.Platform.Results.{
  Exception, unexpected, ok, err, forbidden, conflict, not_found, Outcome-cases,
}
use hotel_crm.Users.Types.{PublicUser, UpdateUserDto, public_user, has_null}
use hotel_crm.Users.Repository.{user_policy, has_id, is_active_admin}
use hotel_crm.Users.Service.{
  update, or_not_found, assert_not_self_lockout, assert_an_admin_remains, update_record,
  drops_admin, deactivates, changes_role, own_deactivation, own_role, last_admin, user_not_found,
}
use hotel_crm.Users.Rows.{
  resolve, find_by_id_no_tenant, find_by_id_lem, find_by_id_bad, count_active_admins_lem, written,
  update_lem, update_null,
}

module _ {U T R K : Type 0} (p : Platform U T R K) (current : Option String) (id : String)
    (dto : UpdateUserDto) (actor : String) (w : World U T R) where
  -- The row that was found, and the checks that it passed, when the write was made.
  pub record IsWritten (w' : World U T R) : Type 0 where
    pub s : Option String
    pub t : String
    pub tenant : resolve p current ≡ ok (t, s)
    pub key : String
    pub canonical : p.to_uuid id ≡ ok key
    pub target : UserRow
    pub found : p.users.find_first (user_policy s) (has_id key) w.users ≡ some target
    pub own :
        str_eq id actor ≡ true → (deactivates dto ≡ false) × (changes_role dto target.role ≡ false)
    pub admins :
        drops_admin dto (public_user target) ≡ true
        → 1 < p.users.count_rows (user_policy s) is_active_admin w.users
    pub no_null : has_null (update_record dto) ≡ false
    pub users : w'.users ≡ (written p s w key (update_record dto)).0
    pub result :
        (update p current id dto actor w).0
        ≡ (or_not_found p
            (if (written p s w key (update_record dto)).1 == 0
              then none
              else Option.map public_user (
                  p.users.find_first
                    (user_policy s)
                    (has_id key)
                    (written p s w key (update_record dto)).0))
            w).0

  pub or_not_found-world : (o : Option PublicUser) (v : World U T R) → (or_not_found p o v).1 ≡ v
  unfolding or_not_found
  or_not_found-world none v = refl
  or_not_found-world (some user) v = refl

  or_not_found-result :
      (o : Option PublicUser) (v : World U T R) → (or_not_found p o v).0 ≡ (or_not_found p o w).0
  unfolding or_not_found
  or_not_found-result none v = refl
  or_not_found-result (some user) v = refl

  self-cases :
      (target : PublicUser)
      → ((assert_not_self_lockout p id actor dto target w ≡ (ok tt, w))
          × (str_eq id actor ≡ true
              → (deactivates dto ≡ false) × (changes_role dto target.role ≡ false)))
        ⊎ ((x : Exception) × (assert_not_self_lockout p id actor dto target w ≡ (err x, w)))
  unfolding assert_not_self_lockout
  self-cases target = elim (Bool-cases (str_eq id actor)) [
    | inr other ↦ inl (rw other, λ same. absurd (ground arith))
    | inl own ↦ elim (Bool-cases (deactivates dto)) [
      | inl d ↦ inr (forbidden own_deactivation, rw (own, d))
      | inr d ↦ elim (Bool-cases (changes_role dto target.role)) [
        | inl c ↦ inr (forbidden own_role, rw (own, d, c))
        | inr c ↦ inl (rw (own, d, c), λ _. (d, c))
      ]
    ]
  ]

  module _ (s : Option String) (t : String) (tenant : resolve p current ≡ ok (t, s)) where
    admins-cases :
        (target : PublicUser)
        → ((assert_an_admin_remains p current dto target w ≡ (ok tt, w))
            × (drops_admin dto target ≡ true
                → 1 < p.users.count_rows (user_policy s) is_active_admin w.users))
          ⊎ ((x : Exception) × (assert_an_admin_remains p current dto target w ≡ (err x, w)))
    unfolding assert_an_admin_remains
    admins-cases target = elim (Bool-cases (drops_admin dto target)) [
      | inr d ↦ inl (rw d, λ e. absurd (ground arith))
      | inl d ↦
          elim (Bool-cases (leb (p.users.count_rows (user_policy s) is_active_admin w.users) 1)) [
            | inl c ↦
                inr (conflict last_admin, rw (d, count_active_admins_lem p current s t w tenant, c))
            | inr c ↦
                inl (rw (d, count_active_admins_lem p current s t w tenant, c), λ _. ground arith)
          ]
    ]

  -- An update fails and leaves the world as it was, or it has written.
  pub update-cases :
      ((x : Exception) × (update p current id dto actor w ≡ (err x, w)))
      ⊎ IsWritten (update p current id dto actor w).1
  unfolding update
  update-cases = elim (Outcome-cases (resolve p current)) [
    | inr (x, e) ↦ inl (x, rw (find_by_id_no_tenant p current id x w e))
    | inl ((t, s), e) ↦ elim (Outcome-cases (p.to_uuid id)) [
      | inr (x, f) ↦ inl (x, rw (find_by_id_bad p current s t w e id x f))
      | inl (key, f) ↦
          elim (Option-cases (p.users.find_first (user_policy s) (has_id key) w.users)) [
            | inl g ↦ inl (
              not_found user_not_found,
              rw (find_by_id_lem p current s t w e id key f, g, or_not_found),
            )
            | inr (target, g) ↦ elim (self-cases (public_user target)) [
              | inr (x, h) ↦
                  inl (x, rw (find_by_id_lem p current s t w e id key f, g, or_not_found, h))
              | inl (h, own) ↦ elim (admins-cases s t e (public_user target)) [
                | inr (x, k) ↦
                    inl (x, rw (find_by_id_lem p current s t w e id key f, g, or_not_found, h, k))
                | inl (k, admins) ↦ elim (Bool-cases (has_null (update_record dto))) [
                  | inl n ↦ inl (
                    unexpected "PrismaClientValidationError",
                    rw (
                      find_by_id_lem p current s t w e id key f,
                      g,
                      or_not_found,
                      h,
                      k,
                      update_null p current s t w e id (update_record dto) n,
                    ),
                  )
                  | inr n ↦ inr (record {
                    s = s;
                    t = t;
                    tenant = e;
                    key = key;
                    canonical = f;
                    target = target;
                    found = g;
                    own = own;
                    admins = admins;
                    no_null = n;
                    users =
                        rw
                          (
                            find_by_id_lem p current s t w e id key f,
                            g,
                            or_not_found,
                            h,
                            k,
                            update_lem p current s t w e id key (update_record dto) f n,
                          )
                          (ap (λ v. v.users) (or_not_found-world _ _));
                    result =
                        rw
                          (
                            find_by_id_lem p current s t w e id key f,
                            g,
                            or_not_found,
                            h,
                            k,
                            update_lem p current s t w e id key (update_record dto) f n,
                          )
                          (or_not_found-result _ _);
                  })
                ]
              ]
            ]
          ]
    ]
  ]
