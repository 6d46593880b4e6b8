-- ===== src/Users/Order.antt =====
-- A list that is sorted by an order that tells its elements apart is the only one of its elements.
use mathlib.Core.List.Perm
use mathlib.Core.Logic.{∥∥₁_elim, ∥∥₁_map}
use hotel_crm.Prelude.{
  ℕ, zero, suc, ◌+◌, ◌≤◌, ◌≡◌, refl, sym, ap, ◌∙◌, subst, Bool, true, false, List, [], ◌∷◌, ◌++◌,
  Mem, Memᴰ, Perm, All, All-at, arith, take, drop, length,
}
use hotel_crm.Platform.Tables.{Sorted}

module _ {A : Type 0} (set : IsSet A) (before : A → A → Bool)
    (asym : (a b : A) → before a b ≡ true → before b a ≡ false) where
  irrefl : (a : A) → before a a ≡ false
  irrefl a = ground (arith, asym a a)

  -- No member of a sorted list comes before its head.
  not_before_head :
      (x y : A) (ys : List A)
      → Mem x (y ∷ ys)
      → All (λ z. before z y ≡ false) ys
      → before x y ≡ false
  not_before_head x y ys m h =
      ∥∥₁_elim m (hlevel)
        λ d. elim d [ Memᴰ.head e ↦ rw e (irrefl y) | Memᴰ.tail k ↦ All-at _ ys h k ]

  pub Sorted-unique :
      (xs ys : List A)
      → Perm xs ys
      → Sorted before xs
      → Sorted before ys
      → ((a b : A) → Mem a xs → Mem b xs → before a b ≡ false → before b a ≡ false → a ≡ b)
      → xs ≡ ys
  Sorted-unique [] ys p s t same = Perm.nil-eq p
  Sorted-unique (x ∷ xs) [] p s t same = Perm.eq-nil p
  Sorted-unique (x ∷ xs) (y ∷ ys) p (s, ss) (t, tt') same =
      let x_in : Mem x (y ∷ ys) = Perm.subset p x (∣ Memᴰ.head refl ∣₁) in
      let y_in : Mem y (x ∷ xs) = Perm.subset (Perm.symm p) y (∣ Memᴰ.head refl ∣₁) in
      let one : x ≡ y =
        same x y (∣ Memᴰ.head refl ∣₁) y_in (not_before_head x y ys x_in t)
          (not_before_head y x xs y_in s) in
      let rest : Perm xs ys = Perm.cons_inv (subst (λ c. Perm (x ∷ xs) (c ∷ ys)) (sym one) p) in
      rw (
        one,
        Sorted-unique xs ys rest ss tt'
            λ a b m n. same a b (∥∥₁_map m Memᴰ.tail) (∥∥₁_map n Memᴰ.tail),
      )

none_more : (m : ℕ) → m ≡ 0 + m
none_more m = omega arith

one_more : (n m : ℕ) → suc (n + m) ≡ suc n + m
one_more n m = omega arith

take_none : {A : Type 0} (n : ℕ) → take {A = A} n [] ≡ []
take_none zero = refl
take_none (suc n) = refl

-- Taking pages one after the other.
pub take-drop :
    {A : Type 0} (n m : ℕ) (xs : List A) → take n xs ++ take m (drop n xs) ≡ take (n + m) xs
take-drop zero m xs = ap (λ k. take k xs) (none_more m)
take-drop (suc n) m [] = take_none m ∙ sym (take_none (suc n + m))
take-drop (suc n) m (x ∷ xs) =
    ap (λ l. x ∷ l) (take-drop n m xs) ∙ ap (λ k. take k (x ∷ xs)) (one_more n m)

pub take_all : {A : Type 0} (n : ℕ) (xs : List A) → length xs ≤ n → take n xs ≡ xs
take_all zero [] h = refl
take_all zero (x ∷ xs) h = absurd (omega arith)
take_all (suc n) [] h = refl
take_all (suc n) (x ∷ xs) h = ap (λ l. x ∷ l) (take_all n xs (omega arith))
