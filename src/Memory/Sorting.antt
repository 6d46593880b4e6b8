-- ===== src/Memory/Sorting.antt =====
-- Insertion sort by a strict weak order.
use mathlib.Core.List.Perm
use hotel_crm.Prelude.{
  ◌≡◌, Bool, true, false, List, [], ◌∷◌, Perm, All, All-imp, if◌then◌else◌, Bool-cases, inl, inr,
}
use hotel_crm.Platform.Tables.{Sorted}

module _ {A : Type 0} (before : A → A → Bool) where
  insert : A → List A → List A
  insert a [] = a ∷ []
  insert a (x ∷ xs) = let rest = x ∷ insert a xs in if before x a then rest else a ∷ x ∷ xs

  pub sort : List A → List A
  sort [] = []
  sort (x ∷ xs) = insert x (sort xs)

  insert-perm : (a : A) (xs : List A) → Perm (insert a xs) (a ∷ xs)
  unfolding insert
  insert-perm a [] = Perm.refl _
  insert-perm a (x ∷ xs) = elim (Bool-cases (before x a)) [
    | inl e ↦ rw e (Perm.trans (Perm.cons x (insert-perm a xs)) (Perm.swap a x xs))
    | inr e ↦ rw e (Perm.refl _)
  ]

  pub sort-perm : (xs : List A) → Perm (sort xs) xs
  unfolding sort
  sort-perm [] = Perm.refl _
  sort-perm (x ∷ xs) = Perm.trans (insert-perm x (sort xs)) (Perm.cons x (sort-perm xs))

  module _ (asym : (a b : A) → before a b ≡ true → before b a ≡ false)
      (trans : (a b c : A) → before b a ≡ false → before c b ≡ false → before c a ≡ false) where
    insert-All :
        (x a : A) (xs : List A)
        → before a x ≡ false
        → All (λ y. before y x ≡ false) xs
        → All (λ y. before y x ≡ false) (insert a xs)
    unfolding insert
    insert-All x a [] h k = (h, tt)
    insert-All x a (y ∷ ys) h (k, ks) = elim (Bool-cases (before y a)) [
      | inl e ↦ rw e (k, insert-All x a ys h ks)
      | inr e ↦ rw e (h, (k, ks))
    ]

    insert-Sorted : (a : A) (xs : List A) → Sorted before xs → Sorted before (insert a xs)
    unfolding insert
    insert-Sorted a [] s = (tt, tt)
    insert-Sorted a (x ∷ xs) (h, s) = elim (Bool-cases (before x a)) [
      | inl e ↦ rw e (insert-All x a xs (asym x a e) h, insert-Sorted a xs s)
      | inr e ↦ rw e ((e, All-imp _ _ xs (λ y k. trans a x y e k) h), (h, s))
    ]

    pub sort-Sorted : (xs : List A) → Sorted before (sort xs)
    unfolding sort
    sort-Sorted [] = tt
    sort-Sorted (x ∷ xs) = insert-Sorted x (sort xs) (sort-Sorted xs)
