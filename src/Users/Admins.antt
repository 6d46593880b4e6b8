-- ===== src/Users/Admins.antt =====
-- A hotel keeps an active admin.
use hotel_crm.Prelude.{
  ℕ, ◌<◌, ◌≡◌, refl, ap, sym, subst, ◌∙◌, String, Bool, true, false, Option, none, some, List, ◌&&◌,
  arith, str_eq, str_eq-true, Memᴰ, Bool-cases, inl, inr, count, change, count-change_le,
  count-change_mono,
}
use hotel_crm.Schema.{UserRow}
use hotel_crm.Platform.{Platform, World}
use hotel_crm.Users.Types.{UpdateUserDto, public_user, updated_row, has_null}
use hotel_crm.Users.Repository.{user_policy, has_id, is_active_admin}
use hotel_crm.Users.Service.{update, update_record, drops_admin}
use hotel_crm.Users.Rows.{UniqueUsers, UniqueUsers-id, count-has_id, user_rows}
use hotel_crm.Users.Update.{update-cases}

abbrev pub admins_of : String → UserRow → Bool
admins_of tenant r = str_eq r.tenant_id tenant && is_active_admin r

-- An update that does not drop an admin leaves the row one.
stays_admin :
    (tenant : String) (at : ℕ) (dto : UpdateUserDto) (r : UserRow)
    → drops_admin dto (public_user r) ≡ false
    → has_null (update_record dto) ≡ false
    → admins_of tenant r ≡ true
    → admins_of tenant (updated_row at (update_record dto) r) ≡ true
stays_admin tenant at dto r d n h = ground arith

module _ (key : String) (s : Option String) (at : ℕ) (dto : UpdateUserDto) (xs : List UserRow) where
  abbrev picked : UserRow → Bool
  picked r = user_policy s r && has_id key r

  abbrev rewritten : List UserRow
  rewritten = change picked (updated_row at (update_record dto)) xs

  -- Nobody is lost where the rows that are written stay what they are.
  kept_where_same :
      (tenant : String)
      → ((x : UserRow)
          → Memᴰ x xs
          → picked x ≡ true
          → admins_of tenant x ≡ true
          → admins_of tenant (updated_row at (update_record dto) x) ≡ true)
      → 0 < count (admins_of tenant) xs
      → 0 < count (admins_of tenant) rewritten
  kept_where_same tenant same h = omega (
    arith,
    count-change_mono (admins_of tenant) picked (updated_row at (update_record dto)) xs same,
  )

  kept_undropped :
      (tenant : String) (target : UserRow)
      → UniqueUsers xs
      → Memᴰ target xs
      → has_id key target ≡ true
      → has_null (update_record dto) ≡ false
      → drops_admin dto (public_user target) ≡ false
      → 0 < count (admins_of tenant) xs
      → 0 < count (admins_of tenant) rewritten
  kept_undropped tenant target u m i n d = kept_where_same tenant λ x k q g.
      let one : x ≡ target =
        UniqueUsers-id xs x target u k m
          (str_eq-true x.id key (ground arith) ∙ sym (str_eq-true target.id key i)) in
      stays_admin tenant at dto x (rw one d) n g

-- An admin may go where two were active under the same tenant.
kept_dropped :
    (tenant key : String) (s : Option String) (at : ℕ) (dto : UpdateUserDto) (xs : List UserRow)
    → UniqueUsers xs
    → 1 < count (λ r. user_policy s r && is_active_admin r) xs
    → 0 < count (admins_of tenant) xs
    → 0 < count (admins_of tenant) (rewritten key s at dto xs)
kept_dropped tenant key none at dto xs u a h =
    kept_where_same key none at dto xs tenant (λ x m q g. ground arith) h
kept_dropped tenant key (some t) at dto xs u a h = elim (Bool-cases (str_eq t tenant)) [
  | inl same ↦ rw (← str_eq-true t tenant same) (
      omega (
        arith,
        a,
        count-change_le (admins_of t) (picked key (some t) at dto xs)
            (updated_row at (update_record dto)) xs,
        count-has_id (user_policy (some t)) key xs u,
      ))
  | inr other ↦
      kept_where_same key (some t) at dto xs tenant
        (λ x m q g. absurd (ground (arith, other, str_eq-true x.tenant_id t (ground arith), g))) h
]

change-keeps :
    (tenant key : String) (s : Option String) (at : ℕ) (dto : UpdateUserDto) (target : UserRow)
    (xs : List UserRow)
    → UniqueUsers xs
    → Memᴰ target xs
    → has_id key target ≡ true
    → has_null (update_record dto) ≡ false
    → (drops_admin dto (public_user target) ≡ true
        → 1 < count (λ r. user_policy s r && is_active_admin r) xs)
    → 0 < count (admins_of tenant) xs
    → 0 < count (admins_of tenant) (rewritten key s at dto xs)
change-keeps tenant key s at dto target xs u m i n admins h =
    elim (Bool-cases (drops_admin dto (public_user target))) [
      | inl d ↦ kept_dropped tenant key s at dto xs u (admins d) h
      | inr d ↦ kept_undropped key s at dto xs tenant target u m i n d h
    ]

module _ {U T R K : Type 0} (p : Platform U T R K) where
  -- Whatever an update of a user does and however it ends, a tenant that had an active admin still
  -- has one, if users have unique ids.
  pub update-keeps_admin :
      (current : Option String) (id actor tenant : String) (dto : UpdateUserDto) (w : World U T R)
      → UniqueUsers (user_rows p w)
      → 0 < count (admins_of tenant) (user_rows p w)
      → 0 < count (admins_of tenant) (user_rows p (update p current id dto actor w).1)
  update-keeps_admin current id actor tenant dto w u h =
      elim (update-cases p current id dto actor w) [
        | inl (x, e) ↦ rw e h
        | inr c ↦
            let rows =
              ap p.users.rows c.users
              ∙ p.users.rows-update_many (user_policy c.s) (has_id c.key)
                  (updated_row (p.clock w.reads) (update_record dto)) w.users (λ r. refl) in
            let (m, _, i) =
              p.users.find_first-some (user_policy c.s) (has_id c.key) w.users c.target c.found in
            rw rows (
              change-keeps tenant c.key c.s _ dto c.target (user_rows p w) u m i c.no_null
                (λ d.
                  subst (λ k. 1 < k)
                    (p.users.count_rows_lem (user_policy c.s) is_active_admin w.users) (c.admins d))
                h)
      ]
