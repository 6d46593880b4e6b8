-- ===== src/Users/Own.antt =====
-- Nobody switches off the own account: what the check gives, and where it gives nothing.
use hotel_crm.Prelude.{
  ℕ, ◌≡◌, ◌≢◌, refl, ap, sym, subst, ◌∙◌, String, true, false, Option, some, List, ◌&&◌, arith,
  str_eq-true, str_eq_refl, str_eq_ne, Memᴰ, Memᴰ-change, All, All-of_change, Bool-cases, inl, inr,
  change,
}
use hotel_crm.Schema.{UserRow, admin}
use hotel_crm.Platform.{Platform, World}
use hotel_crm.Platform.Results.{ok}
use hotel_crm.Users.Types.{UpdateUserDto, absent, value, public_user, updated_row, has_null}
use hotel_crm.Users.Repository.{user_policy, has_id}
use hotel_crm.Users.Service.{
  update, update_record, drops_admin, deactivates, changes_role, or_not_found,
  assert_not_self_lockout, assert_an_admin_remains,
}
use hotel_crm.Users.Rows.{
  UniqueUsers, UniqueUsers-id, user_rows, resolve, find_by_id_lem, update_lem,
}
use hotel_crm.Users.Update.{update-cases, or_not_found-world}

-- The role and the activity of the row that is where the checks on the own account pass.
own_row :
    (at : ℕ) (dto : UpdateUserDto) (r : UserRow)
    → deactivates dto ≡ false
    → changes_role dto r.role ≡ false
    → has_null (update_record dto) ≡ false
    → ((updated_row at (update_record dto) r).role ≡ r.role)
      × (r.is_active ≡ true → (updated_row at (update_record dto) r).is_active ≡ true)
own_row at dto r d c n = (ground arith, λ a. ground arith)

own_change :
    (key : String) (s : Option String) (at : ℕ) (dto : UpdateUserDto) (xs : List UserRow)
    (target r r' : UserRow)
    → UniqueUsers xs
    → Memᴰ target xs
    → has_id key target ≡ true
    → deactivates dto ≡ false
    → changes_role dto target.role ≡ false
    → has_null (update_record dto) ≡ false
    → Memᴰ r xs
    → Memᴰ r'
        (change (λ x. user_policy s x && has_id key x) (updated_row at (update_record dto)) xs)
    → r'.id ≡ r.id
    → (r'.role ≡ r.role) × (r.is_active ≡ true → r'.is_active ≡ true)
own_change key s at dto xs target r r' u m i d c n k k' e =
    let (x, l, f) = Memᴰ-change _ (updated_row at (update_record dto)) xs k' in
    let same_id : r'.id ≡ x.id = ground arith in
    let one : x ≡ r = UniqueUsers-id xs x r u l k (sym same_id ∙ e) in
    elim (Bool-cases (user_policy s x && has_id key x)) [
      | inl q ↦
          let other : x ≡ target =
            UniqueUsers-id xs x target u l m
              (str_eq-true x.id key (ground arith) ∙ sym (str_eq-true target.id key i)) in
          let kept = own_row at dto target d c n in
          let is : r' ≡ updated_row at (update_record dto) target =
            rw (← other) (ground (arith, f, q)) in
          rw (is, ← one, other) kept
      | inr q ↦ let is : r' ≡ r = ground (arith, f, q, one) in rw is (refl, λ a. a)
    ]

abbrev pub deactivation : UpdateUserDto
deactivation = record {
  full_name = absent;
  phone = absent;
  role = absent;
  permissions = absent;
  is_active = value false;
}

module _ {U T R K : Type 0} (p : Platform U T R K) where
  -- An update that names the actor's own account by the very text of the actor's id leaves the
  -- account its role, and leaves it active if it was, however the update ends; users have unique
  -- ids.
  pub update-own :
      (current : Option String) (id : String) (dto : UpdateUserDto) (w : World U T R)
      (r r' : UserRow)
      → UniqueUsers (user_rows p w)
      → Memᴰ r (user_rows p w)
      → Memᴰ r' (user_rows p (update p current id dto id w).1)
      → r'.id ≡ r.id
      → (r'.role ≡ r.role) × (r.is_active ≡ true → r'.is_active ≡ true)
  update-own current id dto w r r' u k k' e = elim (update-cases p current id dto id w) [
    | inl (x, f) ↦
        let same : r' ≡ r = UniqueUsers-id (user_rows p w) r' r u (rw f at k') k e in
        rw same (refl, λ a. a)
    | inr c ↦
        let rows =
          ap p.users.rows c.users
          ∙ p.users.rows-update_many (user_policy c.s) (has_id c.key)
              (updated_row (p.clock w.reads) (update_record dto)) w.users (λ r. refl) in
        let (m, _, i) =
          p.users.find_first-some (user_policy c.s) (has_id c.key) w.users c.target c.found in
        let (d, g) = c.own (str_eq_refl id) in
        own_change c.key c.s _ dto (user_rows p w) c.target r r' u m i d g c.no_null k
          (subst (Memᴰ r') rows k') e
  ]

  -- The check of the own account compares texts: where an actor who is no admin gives the own id
  -- in another spelling, and the row is found under the tenant, an update that deactivates leaves
  -- no active row with that id under the tenant.
  pub update-own_respelled :
      (current s : Option String) (t id actor : String) (w : World U T R) (r : UserRow)
      → resolve p current ≡ ok (t, s)
      → id ≢ actor
      → p.to_uuid id ≡ ok actor
      → p.users.find_first (user_policy s) (has_id actor) w.users ≡ some r
      → r.role ≢ admin
      → All
          (λ x. (user_policy s x && has_id actor x && x.is_active) ≡ false)
          (user_rows p (update p current id deactivation actor w).1)
  unfolding update assert_not_self_lockout assert_an_admin_remains
  update-own_respelled current s t id actor w r e other f g plain =
      let safe : drops_admin deactivation (public_user r) ≡ false = ground arith in
      rw
        (
          find_by_id_lem p current s t w e id actor f,
          g,
          or_not_found,
          str_eq_ne id actor other,
          safe,
          update_lem p current s t w e id actor (update_record deactivation) f refl,
          or_not_found-world p current id deactivation actor w _ _,
          p.users.rows-update_many (user_policy s) (has_id actor)
              (updated_row (p.clock w.reads) (update_record deactivation)) w.users (λ r. refl),
        )
        (All-of_change (λ x. (user_policy s x && has_id actor x && x.is_active) ≡ false)
          (λ x. user_policy s x && has_id actor x)
          (updated_row (p.clock w.reads) (update_record deactivation)) (user_rows p w)
          (λ x h. ground arith) (λ x h. ground arith))
