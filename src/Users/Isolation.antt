-- ===== src/Users/Isolation.antt =====
-- What other tenants' requests, and any requests, cannot do to the users of a tenant.
use hotel_crm.Prelude.{
  ◌≡◌, ◌≢◌, refl, ap, ◌∙◌, String, Bool, true, false, Option, none, some, List, [], ◌∷◌, All, arith,
  keep, keep-change, change, change-Distinct, Memᴰ, str_eq, str_eq-true, Bool-cases, inl, inr,
}
use hotel_crm.Schema.{UserRow, user_conflict}
use hotel_crm.Platform.{Platform, World}
use hotel_crm.Users.Repository.{user_policy}
use hotel_crm.Users.Rows.{UniqueUsers, user_rows}
use hotel_crm.Users.Effects.{
  Transaction, UserEffect, same, inserted, changed, IsGentle, step, run, setting, step-UserEffect,
}

abbrev pub in_tenant : String → UserRow → Bool
in_tenant t r = str_eq r.tenant_id t

-- A policy under another setting admits no row of the tenant.
policy_elsewhere :
    (s : Option String) (t : String) (r : UserRow)
    → s ≢ some t
    → user_policy s r ≡ true
    → in_tenant t r ≡ false
policy_elsewhere none t r h e = cc
policy_elsewhere (some u) t r h e =
    ground (arith, str_eq-true r.tenant_id u, str_eq-true r.tenant_id t)

pub UserEffect-elsewhere :
    {s : Option String} {xs ys : List UserRow} (t : String)
    → s ≢ some t
    → UserEffect s xs ys
    → keep (in_tenant t) ys ≡ keep (in_tenant t) xs
UserEffect-elsewhere t h (same e) = rw e
UserEffect-elsewhere {s} t h (inserted r e a k) = rw (e, policy_elsewhere s t r h a)
UserEffect-elsewhere {s} {xs} t h (changed q f g e) = rw e (
    keep-change _ _ f xs λ x c.
      let e : in_tenant t x ≡ false = policy_elsewhere s t x h (ground arith) in
      (e, ap (λ u. str_eq u t) (g.keeps_tenant x) ∙ e))

pub UserEffect-UniqueUsers :
    {s : Option String} {xs ys : List UserRow}
    → UserEffect s xs ys
    → UniqueUsers xs
    → UniqueUsers ys
UserEffect-UniqueUsers (same e) u = rw e u
UserEffect-UniqueUsers (inserted r e a k) u = rw e (k, u)
UserEffect-UniqueUsers {xs} (changed q f g e) u = rw e (
    change-Distinct user_conflict f (λ x y. rw (g.keeps_id x, g.keeps_tenant x, g.keeps_email x))
      (λ x y. rw (g.keeps_id y, g.keeps_tenant y, g.keeps_email y)) _ xs u)

-- The row with the same identity and credentials as another.
abbrev pub SameAccount : UserRow → UserRow → Type 0
SameAccount r x =
    (x.id ≡ r.id)
    × (x.tenant_id ≡ r.tenant_id)
    × (x.email ≡ r.email)
    × (x.password_hash ≡ r.password_hash)

change-account :
    (q : UserRow → Bool) (f : UserRow → UserRow) (g : IsGentle f) (xs : List UserRow) (r : UserRow)
    → Memᴰ r xs
    → (x : UserRow) × Memᴰ x (change q f xs) × SameAccount r x
change-account q f g (y ∷ xs) r (Memᴰ.head e) = elim (Bool-cases (q y)) [
  | inl c ↦ (
    f y,
    Memᴰ.head (rw c),
    rw e (g.keeps_id y, g.keeps_tenant y, g.keeps_email y, g.keeps_password y),
  )
  | inr c ↦ (y, Memᴰ.head (rw c), rw e (refl, refl, refl, refl))
]
change-account q f g (y ∷ xs) r (Memᴰ.tail m) =
    let (x, n, k) = change-account q f g xs r m in (x, Memᴰ.tail n, k)
change-account q f g [] r m = elim m [ ]

pub UserEffect-account :
    {s : Option String} {xs ys : List UserRow} (r : UserRow)
    → UserEffect s xs ys
    → Memᴰ r xs
    → (x : UserRow) × Memᴰ x ys × SameAccount r x
UserEffect-account r (same e) m = (r, rw e m, (refl, refl, refl, refl))
UserEffect-account r (inserted n e a k) m = (r, rw e (Memᴰ.tail m), (refl, refl, refl, refl))
UserEffect-account {xs} r (changed q f g e) m = rw e (change-account _ f g xs r m)

module _ {U T R K : Type 0} (p : Platform U T R K) where
  -- Whatever transactions run, if the setting of none is the tenant, the users of the tenant stay as
  -- they are.
  pub run-unaffected :
      (t : String) (xs : List Transaction) (w : World U T R)
      → All (λ x. setting p x ≢ some t) xs
      → keep (in_tenant t) (user_rows p (run p xs w)) ≡ keep (in_tenant t) (user_rows p w)
  unfolding run
  run-unaffected t [] w h = refl
  run-unaffected t (x ∷ xs) w (h, k) =
      run-unaffected t xs (step p x w) k ∙ UserEffect-elsewhere t h (step-UserEffect p x w)

  -- Whatever transactions run, users keep unique ids and, in their tenants, unique addresses, if
  -- they had them.
  pub run-UniqueUsers :
      (xs : List Transaction) (w : World U T R)
      → UniqueUsers (user_rows p w)
      → UniqueUsers (user_rows p (run p xs w))
  unfolding run
  run-UniqueUsers [] w u = u
  run-UniqueUsers (x ∷ xs) w u =
      run-UniqueUsers xs (step p x w) (UserEffect-UniqueUsers (step-UserEffect p x w) u)

  -- Whatever transactions run, no user is lost: a row stays with its id, its tenant, its address and
  -- its password's hash.
  pub run-account :
      (xs : List Transaction) (w : World U T R) (r : UserRow)
      → Memᴰ r (user_rows p w)
      → (x : UserRow) × Memᴰ x (user_rows p (run p xs w)) × SameAccount r x
  unfolding run
  run-account [] w r m = (r, m, (refl, refl, refl, refl))
  run-account (y ∷ xs) w r m =
      let (x, n, (a, b, c, d)) = UserEffect-account r (step-UserEffect p y w) m in
      let (z, l, (a', b', c', d')) = run-account xs (step p y w) x n in
      (z, l, (a' ∙ a, b' ∙ b, c' ∙ c, d' ∙ d))
