-- ===== src/Users/Listed.antt =====
-- What one page of the list of users holds.
use mathlib.Core.List.Perm
use mathlib.Core.Logic.{∥∥₁_elim}
use hotel_crm.Prelude.{
  ℕ, zero, suc, ◌≤◌, ◌≡◌, refl, sym, ap, String, Bool, true, Option, none, some, List, [], ◌∷◌, map,
  Perm, All, All-at, All-of_at, arith, take, drop, length, keep, Bool-cases, str_eq-true, inl, inr,
}
use hotel_crm.Schema.{UserRow}
use hotel_crm.Platform.{Platform, World}
use hotel_crm.Platform.Results.{ok, err, Exception, Outcome-cases}
use hotel_crm.Users.Types.{PublicUser, public_user}
use hotel_crm.Users.Repository.{PageRequest, user_policy, newest_first, skip_for, everyone}
use hotel_crm.Users.Repository
use hotel_crm.Users.Service.{find_page, PaginatedResult}
use hotel_crm.Users.Rows.{resolve, with_current_tenant-ok, with_current_tenant-err}
use hotel_crm.Users.Effects.{current_setting}
use hotel_crm.Users.Pages.{newest_first-asym, newest_first-weak}

length-take : {A : Type 0} (n : ℕ) (xs : List A) → length (take n xs) ≤ n
length-take zero xs = omega arith
length-take (suc n) [] = omega arith
length-take (suc n) (x ∷ xs) = let rest = length-take n xs in omega arith

length-map : {A B : Type 0} (f : A → B) (xs : List A) → length (map f xs) ≡ length xs
length-map f [] = refl
length-map f (x ∷ xs) = ap suc (length-map f xs)

module _ {A : Type 0} (q : A → Bool) where
  All-take : (n : ℕ) (xs : List A) → All (λ x. q x ≡ true) xs → All (λ x. q x ≡ true) (take n xs)
  All-take zero xs h = tt
  All-take (suc n) [] h = tt
  All-take (suc n) (x ∷ xs) (h, k) = (h, All-take n xs k)

  All-drop : (n : ℕ) (xs : List A) → All (λ x. q x ≡ true) xs → All (λ x. q x ≡ true) (drop n xs)
  All-drop zero xs h = h
  All-drop (suc n) [] h = tt
  All-drop (suc n) (x ∷ xs) (h, k) = All-drop n xs k

  keep-true : (xs : List A) → All (λ x. q x ≡ true) (keep q xs)
  keep-true [] = tt
  keep-true (x ∷ xs) = elim (Bool-cases (q x)) [
    | inl e ↦ rw e (e, keep-true xs)
    | inr e ↦ rw e (keep-true xs)
  ]

  Bool-set : (b c : Bool) → IsProp (b ≡ c)
  Bool-set b c = hlevel

  Perm-true : (xs ys : List A) → Perm xs ys → All (λ x. q x ≡ true) ys → All (λ x. q x ≡ true) xs
  Perm-true xs ys p h =
      All-of_at (λ x. q x ≡ true) xs
        λ a m.
          ∥∥₁_elim (Perm.subset p a ∣ m ∣₁) (Bool-set (q a) true)
            λ n. All-at (λ x. q x ≡ true) ys h n

module _ {U T R K : Type 0} (p : Platform U T R K) where
  page-admitted :
      (s : Option String) (skip limit : ℕ) (w : World U T R)
      → (length (p.users.find_many (user_policy s) (newest_first p) skip limit w.users) ≤ limit)
        × All
            (λ r. user_policy s r ≡ true)
            (p.users.find_many (user_policy s) (newest_first p) skip limit w.users)
  page-admitted s skip limit w =
      let (xs, q, _, e) =
        p.users.find_many_lem (user_policy s) (newest_first p) skip limit w.users
          (newest_first-asym p) (newest_first-weak p) in
      rw e (
        length-take limit (drop skip xs),
        All-take (user_policy s) limit _ (
            All-drop (user_policy s) skip xs
              (Perm-true (user_policy s) xs _ q (keep-true (user_policy s) _))),
      )

  setting_tenant : (s : Option String) (r : UserRow) → user_policy s r ≡ true → s ≡ some r.tenant_id
  setting_tenant none r h = absurd (ground arith)
  setting_tenant (some u) r h = ap some (sym (str_eq-true r.tenant_id u h))

  public-tenant :
      (s : Option String) (xs : List UserRow)
      → All (λ r. user_policy s r ≡ true) xs
      → All (λ u. s ≡ some u.tenant_id) (map public_user xs)
  public-tenant s [] h = tt
  public-tenant s (x ∷ xs) (h, k) = (setting_tenant s x h, public-tenant s xs k)

  abbrev selected : Option String → PageRequest → World U T R → List UserRow
  selected s query w =
      p.users.find_many (user_policy s) (newest_first p) (skip_for query) query.limit w.users

  module _ (current : Option String) (query : PageRequest) (w : World U T R) where
    found-ok :
        (s : Option String) (t : String)
        → resolve p current ≡ ok (t, s)
        → Repository.find_page p current query w ≡ (
          ok (record {
            items = map public_user (selected s query w);
            total = p.users.count_rows (user_policy s) everyone w.users;
          }),
          w,
        )
    unfolding Repository.find_page
    found-ok s t e = with_current_tenant-ok p current s t _ w e

    found-err :
        (x : Exception)
        → resolve p current ≡ err x
        → Repository.find_page p current query w ≡ (err x, w)
    unfolding Repository.find_page
    found-err x e = with_current_tenant-err p current x _ w e

    -- A page that the service returns holds as many users as were asked for at most, and each of
    -- them is of the tenant that the policies read.
    pub find_page-ok :
        (w' : World U T R) (page : PaginatedResult PublicUser)
        → find_page p current query w ≡ (ok page, w')
        → (length page.items ≤ query.limit)
          × All (λ u. current_setting p current ≡ some u.tenant_id) page.items
    unfolding find_page
    find_page-ok w' page h = elim (Outcome-cases (resolve p current)) [
      | inr (x, e) ↦ let failed = found-err x e in absurd (ground (arith, h, failed))
      | inl ((t, s), e) ↦
          let done = found-ok s t e in
          let items : page.items ≡ map public_user (selected s query w) = ground (arith, h, done) in
          let (short, admitted) = page-admitted s (skip_for query) query.limit w in
          rw (items, e)
            (rw (length-map public_user (selected s query w)) short, public-tenant s _ admitted)
    ]
