-- ===== src/Users/Pages.antt =====
-- The pages of a list that does not change.
use mathlib.Core.List.Perm
use mathlib.Core.List.{Permᴰ}
use mathlib.Core.Logic.{∥∥₁_elim}
use native.Mathlib.Decide.{ℕ_discrete}
use hotel_crm.Prelude.{
  ℕ, zero, suc, ◌+◌, ◌-◌, ◌*◌, ◌≤◌, ◌≡◌, refl, ap, ◌∙◌, String, true, false, Option, List, [], ◌∷◌,
  ◌++◌, map, Mem, Perm, arith, take, drop, length, keep, keep-Distinct, String_set, Bool-cases, inl,
  inr,
}
use hotel_crm.Schema.{UserRow, user_conflict}
use hotel_crm.Platform.{Platform, World}
use hotel_crm.Platform.Results.{ok, Action, pure, ◌>>=◌}
use hotel_crm.Users.Types.{PublicUser, public_user}
use hotel_crm.Users.Repository.{PageRequest, user_policy, newest_first, skip_for, everyone}
use hotel_crm.Users.Repository
use hotel_crm.Users.Service.{find_page}
use hotel_crm.Users.Rows.{UniqueUsers, UniqueUsers-id, user_rows, resolve, with_current_tenant-ok}
use hotel_crm.Users.Order.{Sorted-unique, take-drop, take_all}

Permᴰ-length : {A : Type 0} (xs ys : List A) → Permᴰ xs ys → length xs ≡ length ys
Permᴰ-length _ _ Permᴰ.nil = refl
Permᴰ-length _ _ (Permᴰ.cons {l₁ = l₁} {l₂ = l₂} e d) = ap suc (Permᴰ-length l₁ l₂ d)
Permᴰ-length _ _ (Permᴰ.swap e f) = refl
Permᴰ-length _ _ (Permᴰ.trans {l₁ = l₁} {l₂ = l₂} {l₃ = l₃} c d) =
    Permᴰ-length l₁ l₂ c ∙ Permᴰ-length l₂ l₃ d

Perm-length : {A : Type 0} (xs ys : List A) → Perm xs ys → length xs ≡ length ys
Perm-length xs ys p = ∥∥₁_elim p (hlevel ℕ_discrete) (Permᴰ-length xs ys)

UserRow-set : IsSet UserRow
UserRow-set = hlevel (ℕ_discrete, String_set)

module _ {U T R K : Type 0} (p : Platform U T R K) where
  pub newest_first-asym : (a b : UserRow) → newest_first p a b ≡ true → newest_first p b a ≡ false
  newest_first-asym a b h = ground (arith, p.uuid_before-asym b.id a.id)

  uuid_weak :
      (s t u : String)
      → p.uuid_before s t ≡ false
      → p.uuid_before t u ≡ false
      → p.uuid_before s u ≡ false
  uuid_weak s t u h k = elim (Bool-cases (p.uuid_before t s)) [
    | inl e ↦ elim (Bool-cases (p.uuid_before s u)) [
      | inl f ↦ absurd (ground (arith, p.uuid_before-trans t s u e f))
      | inr f ↦ f
    ]
    | inr e ↦ rw (p.uuid_before_total s t h e) k
  ]

  pub newest_first-weak :
      (a b c : UserRow)
      → newest_first p b a ≡ false
      → newest_first p c b ≡ false
      → newest_first p c a ≡ false
  newest_first-weak a b c h k = ground (arith, uuid_weak a.id b.id c.id)

  newest_first_total :
      (a b : UserRow) → newest_first p a b ≡ false → newest_first p b a ≡ false → a.id ≡ b.id
  newest_first_total a b h k = p.uuid_before_total a.id b.id (ground arith) (ground arith)

  module _ (s : Option String) (w : World U T R) (unique : UniqueUsers (user_rows p w)) where
    abbrev visible : List UserRow
    visible = keep (user_policy s) (user_rows p w)

    abbrev page_rows : ℕ → ℕ → List UserRow
    page_rows skip limit = p.users.find_many (user_policy s) (newest_first p) skip limit w.users

    told_apart :
        (xs : List UserRow)
        → Perm xs visible
        → (a b : UserRow) → Mem a xs
        → Mem b xs
        → newest_first p a b ≡ false
        → newest_first p b a ≡ false
        → a ≡ b
    told_apart xs q a b m n h k = ∥∥₁_elim (Perm.subset q a m) (UserRow-set a b) λ d.
        ∥∥₁_elim (Perm.subset q b n) (UserRow-set a b) λ e.
          UniqueUsers-id visible a b
            (keep-Distinct user_conflict (user_policy s) (user_rows p w) unique) d e
            (newest_first_total a b h k)

    -- One order of the rows gives all pages.
    one_order :
        (xs : List UserRow) × Perm xs visible
        × ((skip limit : ℕ) → page_rows skip limit ≡ take limit (drop skip xs))
    one_order =
        let (xs, q, sorted, _) =
          p.users.find_many_lem (user_policy s) (newest_first p) 0 0 w.users newest_first-asym
            newest_first-weak in
        (
          xs,
          q,
          λ skip limit.
              let (ys, r, also, e) =
                p.users.find_many_lem (user_policy s) (newest_first p) skip limit w.users
                  newest_first-asym newest_first-weak in
              let same : ys ≡ xs =
                Sorted-unique UserRow-set (newest_first p) newest_first-asym ys xs
                  (Perm.trans r (Perm.symm q)) also sorted (told_apart ys r) in
              e ∙ ap (λ l. take limit (drop skip l)) same,
        )

  -- The pages 1 to `n`, one request after the other.
  unfoldable pub read_pages : Option String → ℕ → ℕ → Action (World U T R) (List PublicUser)
  read_pages current limit zero = pure []
  read_pages current limit (suc n) = do
    before ← read_pages current limit n
    page ← find_page p current (record { page = suc n; limit = limit })
    pure (before ++ page.items)

  module _ (current s : Option String) (t : String) (limit : ℕ) (w : World U T R)
      (e : resolve p current ≡ ok (t, s)) (unique : UniqueUsers (user_rows p w)) where
    abbrev pub users_of_tenant : List UserRow
    users_of_tenant = keep (user_policy s) (user_rows p w)

    find_page_lem :
        (n : ℕ)
        → find_page p current (record { page = suc n; limit = limit }) w ≡ (
          ok (record {
            items = map public_user (
                p.users.find_many
                  (user_policy s)
                  (newest_first p)
                  ((suc n - 1) * limit)
                  limit
                  w.users);
            page = suc n;
            limit = limit;
            total = p.users.count_rows (user_policy s) everyone w.users;
          }),
          w,
        )
    unfolding find_page Repository.find_page
    find_page_lem n = rw (with_current_tenant-ok p current s t _ w e)

    skipped : (n : ℕ) → (suc n - 1) * limit ≡ n * limit
    skipped n = ap (λ k. k * limit) (omega arith)

    none_taken : 0 ≡ 0 * limit
    none_taken = omega arith

    one_page_more : (n : ℕ) → n * limit + limit ≡ suc n * limit
    one_page_more n = omega arith

    map-append :
        (xs ys : List UserRow)
        → map public_user xs ++ map public_user ys ≡ map public_user (xs ++ ys)
    map-append [] ys = refl
    map-append (x ∷ xs) ys = ap (λ l. public_user x ∷ l) (map-append xs ys)

    read_pages-take :
        (xs : List UserRow)
        → ((skip size : ℕ)
            → p.users.find_many (user_policy s) (newest_first p) skip size w.users
              ≡ take size (drop skip xs))
        → (n : ℕ) → read_pages current limit n w ≡ (ok (map public_user (take (n * limit) xs)), w)
    unfolding read_pages
    read_pages-take xs h zero = ap (λ k. (ok (map public_user (take k xs)), w)) none_taken
    read_pages-take xs h (suc n) =
        let part = h (n * limit) limit in
        rw (
          read_pages-take xs h n,
          find_page_lem n,
          skipped n,
          part,
          map-append (take (n * limit) xs) (take limit (drop (n * limit) xs)),
          take-drop (n * limit) limit xs,
          one_page_more n,
        )

    -- Reading the pages 1 to `n` one after the other, while no user changes, gives every user of the
    -- request's tenant exactly once, if the pages have room for all and users have unique ids.
    pub read_pages-all :
        (n : ℕ)
        → length users_of_tenant ≤ n * limit
        → (xs : List PublicUser) × (read_pages current limit n w ≡ (ok xs, w))
          × Perm xs (map public_user users_of_tenant)
    read_pages-all n h =
        let (xs, q, pages) = one_order s w unique in
        let enough : length xs ≤ n * limit = rw (Perm-length xs users_of_tenant q) h in
        (
          map public_user xs,
          read_pages-take xs pages n
              ∙ ap (λ l. (ok (map public_user l), w)) (take_all (n * limit) xs enough),
          Perm.map public_user q,
        )
