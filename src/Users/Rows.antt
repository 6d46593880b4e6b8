-- ===== src/Users/Rows.antt =====
-- The unique constraints of `users`, and the transactions as equations.
use hotel_crm.Prelude.{
  ℕ, ◌+◌, ◌≤◌, ◌≡◌, false, ◌==◌, sym, ◌∙◌, String, Bool, true, Option, none, some, List, ◌&&◌,
  arith, str_eq, str_eq-true, str_eq_refl, Memᴰ, Distinct, Distinct-eq, Distinct-count, count,
  if◌then◌else◌, Bool-cases, inl, inr,
}
use mathlib.Core.Option
use hotel_crm.Schema.{UserRow, user_conflict}
use hotel_crm.Platform.{Platform, World}
use hotel_crm.Platform.Results.{
  Outcome, Exception, ok, err, bad_request, unexpected, Action, Outcome-cases,
}
use hotel_crm.Tenant.{
  setting_of, with_tenant, with_current_tenant, require_tenant_id, missing_tenant, rolled_back,
}
use hotel_crm.Users.Types.{public_user, UserUpdateRecord, updated_row, has_null}
use hotel_crm.Users.Repository.{
  user_policy, has_id, is_active_admin, find_by_id, select_user, count_active_admins, update,
  update_users, reread,
}

abbrev pub UniqueUsers : List UserRow → Type 0
UniqueUsers = Distinct user_conflict

conflict_of_id : (x y : UserRow) → x.id ≡ y.id → user_conflict x y ≡ true
conflict_of_id x y e = rw e (rw (str_eq_refl y.id))

pub UniqueUsers-id :
    (xs : List UserRow) (a b : UserRow)
    → UniqueUsers xs
    → Memᴰ a xs
    → Memᴰ b xs
    → a.id ≡ b.id
    → a ≡ b
UniqueUsers-id xs a b u m n e =
    Distinct-eq user_conflict xs a b u m n (conflict_of_id a b e) (conflict_of_id b a (sym e))

-- At most one row has an id.
pub count-has_id :
    (policy : UserRow → Bool) (id : String) (xs : List UserRow)
    → UniqueUsers xs
    → count (λ r. policy r && has_id id r) xs ≤ 1
count-has_id policy id xs u =
    Distinct-count user_conflict _ xs
      (λ a b h k.
        conflict_of_id a b
          (str_eq-true a.id id (ground arith) ∙ sym (str_eq-true b.id id (ground arith))))
      u

module _ {U T R K : Type 0} (p : Platform U T R K) where
  abbrev pub user_rows : World U T R → List UserRow
  user_rows w = p.users.rows w.users

  -- The tenant of a request, and what the policies read while it is set.
  abbrev paired : String → Outcome (Option String) → Outcome (String × Option String)
  paired t (ok s) = ok (t, s)
  paired t (err e) = err e

  unfoldable pub resolve : Option String → Outcome (String × Option String)
  resolve none = err (bad_request missing_tenant)
  resolve (some t) =
      if str_eq t "" then err (bad_request missing_tenant) else paired t (setting_of p t)

  pub with_current_tenant-ok :
      {A : Type 0} (current s : Option String) (t : String)
      (work : Option String → String → Action (World U T R) A) (w : World U T R)
      → resolve current ≡ ok (t, s)
      → with_current_tenant p current work w ≡ rolled_back w (work s t w)
  unfolding resolve with_current_tenant require_tenant_id with_tenant
  with_current_tenant-ok none s t work w h = ground arith
  with_current_tenant-ok (some u) s t work w h = ground arith

  pub with_current_tenant-err :
      {A : Type 0} (current : Option String) (e : Exception)
      (work : Option String → String → Action (World U T R) A) (w : World U T R)
      → resolve current ≡ err e
      → with_current_tenant p current work w ≡ (err e, w)
  unfolding resolve with_current_tenant require_tenant_id with_tenant
  with_current_tenant-err none e work w h = ground arith
  with_current_tenant-err (some u) e work w h = ground arith

  pub require_lem :
      (current s : Option String) (t : String) (w : World U T R)
      → resolve current ≡ ok (t, s)
      → require_tenant_id current w ≡ (ok t, w)
  unfolding resolve require_tenant_id
  require_lem none s t w h = ground arith
  require_lem (some u) s t w h = elim (Bool-cases (str_eq u "")) [
    | inl e ↦ absurd (ground arith)
    | inr e ↦ elim (Outcome-cases (setting_of p u)) [
      | inl (a, f) ↦ ground arith
      | inr (x, f) ↦ absurd (ground arith)
    ]
  ]

  -- The state and the count of the statement that `update` runs.
  abbrev pub written : Option String → World U T R → String → UserUpdateRecord → U × ℕ
  written s w key d =
      p.users.update_many (user_policy s) (has_id key) (updated_row (p.clock w.reads) d) w.users

  pub find_by_id_no_tenant :
      (current : Option String) (id : String) (x : Exception) (w : World U T R)
      → resolve current ≡ err x
      → find_by_id p current id w ≡ (err x, w)
  unfolding find_by_id
  find_by_id_no_tenant current id x w e = with_current_tenant-err current x _ w e

  module _ (current s : Option String) (t : String) (w : World U T R)
      (e : resolve current ≡ ok (t, s)) where
    pub find_by_id_lem :
        (id key : String)
        → p.to_uuid id ≡ ok key
        → find_by_id p current id w ≡ (
          ok (Option.map public_user (p.users.find_first (user_policy s) (has_id key) w.users)),
          w,
        )
    unfolding find_by_id select_user
    find_by_id_lem id key f = with_current_tenant-ok current s t _ w e ∙ rw f

    pub find_by_id_bad :
        (id : String) (x : Exception)
        → p.to_uuid id ≡ err x
        → find_by_id p current id w ≡ (err x, w)
    unfolding find_by_id
    find_by_id_bad id x f = with_current_tenant-ok current s t _ w e ∙ rw f

    pub count_active_admins_lem :
        count_active_admins p current w
        ≡ (ok (p.users.count_rows (user_policy s) is_active_admin w.users), w)
    unfolding count_active_admins
    count_active_admins_lem = with_current_tenant-ok current s t _ w e

    pub update_lem :
        (id key : String) (d : UserUpdateRecord)
        → p.to_uuid id ≡ ok key
        → has_null d ≡ false
        → update p current id d w ≡ (
          ok (
              if (written s w key d).1 == 0
              then none
              else Option.map public_user
                  (p.users.find_first (user_policy s) (has_id key) (written s w key d).0)),
          record w { reads = w.reads + 1; users = (written s w key d).0 },
        )
    unfolding update update_users reread select_user
    update_lem id key d f n =
        with_current_tenant-ok current s t _ w e ∙ elim (Bool-cases ((written s w key d).1 == 0)) [
          | inl c ↦ rw (n, f, c, reread)
          | inr c ↦ rw (n, f, c, reread)
        ]

    pub update_null :
        (id : String) (d : UserUpdateRecord)
        → has_null d ≡ true
        → update p current id d w ≡ (err (unexpected "PrismaClientValidationError"), w)
    unfolding update
    update_null id d n = with_current_tenant-ok current s t _ w e ∙ rw n
