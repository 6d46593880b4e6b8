-- ===== src/Prelude/Lists.antt =====
-- Lists measured by native numbers, and the predicates and Boolean searches over them.
use Prim.Native.Nat.{ℕ, zero, suc, ◌+◌, ◌<◌, ◌≤◌}
use mathlib.Core.Path.{◌≡◌, refl, sym, subst, ap, ◌∙◌}
use mathlib.Core.Logic.{inl, inr}
use native.Mathlib.Omega.{arith}
use mathlib.Core.Bool.{Bool, true, false}
use mathlib.Core.List.{List, [], ◌∷◌, Memᴰ}
use hotel_crm.Prelude.Tests.{if◌then◌else◌, Bool-cases}

module _ {ℓ} {A : Type ℓ} where
  abbrev pub length : List A → ℕ
  length [] = 0
  length (x ∷ xs) = suc (length xs)

  abbrev pub take : ℕ → List A → List A
  take zero xs = []
  take (suc n) [] = []
  take (suc n) (x ∷ xs) = x ∷ take n xs

  abbrev pub drop : ℕ → List A → List A
  drop zero xs = xs
  drop (suc n) [] = []
  drop (suc n) (x ∷ xs) = drop n xs

  -- The rows for which a test holds, and how many they are.
  abbrev pub keep : (A → Bool) → List A → List A
  keep p [] = []
  keep p (x ∷ xs) = if p x then x ∷ keep p xs else keep p xs

  abbrev pub count : (A → Bool) → List A → ℕ
  count p [] = 0
  count p (x ∷ xs) = if p x then suc (count p xs) else count p xs

  -- A change of the elements that a test picks.
  abbrev pub change : (A → Bool) → (A → A) → List A → List A
  change p f [] = []
  change p f (x ∷ xs) = (if p x then f x else x) ∷ change p f xs

module _ {ℓ κ} {A : Type ℓ} (P : A → Type κ) where
  abbrev pub All : List A → Type κ
  All [] = Unit
  All (x ∷ xs) = P x × All xs

module _ {ℓ κ} {A : Type ℓ} (P : A → Type κ) where
  pub All-at : (xs : List A) {a : A} → All P xs → Memᴰ a xs → P a
  All-at [] h m = elim m [ ]
  All-at (x ∷ xs) (p, h) (Memᴰ.head e) = subst P (sym e) p
  All-at (x ∷ xs) (p, h) (Memᴰ.tail m) = All-at xs h m

  pub All-of_at : (xs : List A) → ((a : A) → Memᴰ a xs → P a) → All P xs
  All-of_at [] h = tt
  All-of_at (x ∷ xs) h = (h x (Memᴰ.head refl), All-of_at xs (λ a m. h a (Memᴰ.tail m)))

module _ {ℓ} {A : Type ℓ} where
  pub All-keep {κ} : (P : A → Type κ) (q : A → Bool) (xs : List A) → All P xs → All P (keep q xs)
  All-keep P q [] h = tt
  All-keep P q (x ∷ xs) (h, k) = elim (Bool-cases (q x)) [
    | inl e ↦ rw e (h, All-keep P q xs k)
    | inr e ↦ rw e (All-keep P q xs k)
  ]

  pub All-change {κ} :
      (P : A → Type κ) (q : A → Bool) (f : A → A) (xs : List A)
      → ((x : A) → P x → P (f x))
      → All P xs
      → All P (change q f xs)
  All-change P q f [] s h = tt
  All-change P q f (x ∷ xs) s (h, k) = elim (Bool-cases (q x)) [
    | inl e ↦ rw e (s x h, All-change P q f xs s k)
    | inr e ↦ rw e (h, All-change P q f xs s k)
  ]

  -- Rows that a change or a deletion does not pick are as before.
  pub keep-change :
      (p q : A → Bool) (f : A → A) (xs : List A)
      → ((x : A) → q x ≡ true → (p x ≡ false) × (p (f x) ≡ false))
      → keep p (change q f xs) ≡ keep p xs
  keep-change p q f [] h = refl
  keep-change p q f (x ∷ xs) h = ground (arith, h x, keep-change p q f xs h)

  pub keep-keep :
      (p q : A → Bool) (xs : List A)
      → ((x : A) → q x ≡ false → p x ≡ false)
      → keep p (keep q xs) ≡ keep p xs
  keep-keep p q [] h = refl
  keep-keep p q (x ∷ xs) h = ground (arith, h x, keep-keep p q xs h)

  pub All-imp {κ μ} :
      (P : A → Type κ) (Q : A → Type μ) (xs : List A) → ((x : A) → P x → Q x) → All P xs → All Q xs
  All-imp P Q [] i h = tt
  All-imp P Q (x ∷ xs) i (h, k) = (i x h, All-imp P Q xs i k)

  -- A test that fails on every element picks none.
  pub count-eq-zero : (p : A → Bool) (xs : List A) → All (λ x. p x ≡ false) xs → count p xs ≡ 0
  count-eq-zero p [] h = refl
  count-eq-zero p (x ∷ xs) (h, k) = rw h (count-eq-zero p xs k)

  -- A member of a changed list comes from one of the list.
  pub Memᴰ-change :
      (q : A → Bool) (f : A → A) (xs : List A) {y : A}
      → Memᴰ y (change q f xs)
      → (x : A) × Memᴰ x xs × (y ≡ (if q x then f x else x))
  Memᴰ-change q f [] m = elim m [ ]
  Memᴰ-change q f (x ∷ xs) (Memᴰ.head e) = (x, Memᴰ.head refl, e)
  Memᴰ-change q f (x ∷ xs) (Memᴰ.tail m) =
      let (z, n, e) = Memᴰ-change q f xs m in (z, Memᴰ.tail n, e)

  -- A test that is counted holds somewhere.
  pub count-pos : (p : A → Bool) (xs : List A) → 0 < count p xs → (x : A) × Memᴰ x xs × (p x ≡ true)
  count-pos p [] h = absurd (omega arith)
  count-pos p (x ∷ xs) h = elim (Bool-cases (p x)) [
    | inl e ↦ (x, Memᴰ.head refl, e)
    | inr e ↦ let (y, m, f) = count-pos p xs (rw e at h) in (y, Memᴰ.tail m, f)
  ]

  -- A predicate that a change brings about where it acts, and that holds where it does not.
  pub All-of_change {κ} :
      (P : A → Type κ) (q : A → Bool) (f : A → A) (xs : List A)
      → ((x : A) → q x ≡ true → P (f x))
      → ((x : A) → q x ≡ false → P x)
      → All P (change q f xs)
  All-of_change P q f [] h k = tt
  All-of_change P q f (x ∷ xs) h k = elim (Bool-cases (q x)) [
    | inl e ↦ rw e (h x e, All-of_change P q f xs h k)
    | inr e ↦ rw e (k x e, All-of_change P q f xs h k)
  ]

-- No element is in conflict with a later one.
module _ {ℓ} {A : Type ℓ} (conflict : A → A → Bool) where
  abbrev pub Distinct : List A → Type 0
  Distinct [] = Unit {0}
  Distinct (x ∷ xs) = All (λ y. conflict x y ≡ false) xs × Distinct xs

  -- Two members that are in conflict are one.
  pub Distinct-eq :
      (xs : List A) (a b : A)
      → Distinct xs
      → Memᴰ a xs
      → Memᴰ b xs
      → conflict a b ≡ true
      → conflict b a ≡ true
      → a ≡ b
  Distinct-eq [] a b u m n c d = elim m [ ]
  Distinct-eq (x ∷ xs) a b u (Memᴰ.head e) (Memᴰ.head f) c d = e ∙ sym f
  Distinct-eq (x ∷ xs) a b (u, _) (Memᴰ.head e) (Memᴰ.tail n) c d =
      absurd (cc (All-at _ xs u n, ap (λ r. conflict r b) e))
  Distinct-eq (x ∷ xs) a b (u, _) (Memᴰ.tail m) (Memᴰ.head f) c d =
      absurd (cc (All-at _ xs u m, ap (λ r. conflict r a) f))
  Distinct-eq (x ∷ xs) a b (_, u) (Memᴰ.tail m) (Memᴰ.tail n) c d = Distinct-eq xs a b u m n c d

  -- A test that holds only of elements in conflict picks at most one.
  pub Distinct-count :
      (q : A → Bool) (xs : List A)
      → ((a b : A) → q a ≡ true → q b ≡ true → conflict a b ≡ true)
      → Distinct xs
      → count q xs ≤ 1
  Distinct-count q [] h u = omega arith
  Distinct-count q (x ∷ xs) h (d, u) = elim (Bool-cases (q x)) [
    | inl e ↦
        rw (e, count-eq-zero q xs (All-imp _ _ xs (λ y k. ground (arith, h x y e)) d)) (omega arith)
    | inr e ↦ rw e (Distinct-count q xs h u)
  ]

  pub keep-Distinct : (q : A → Bool) (xs : List A) → Distinct xs → Distinct (keep q xs)
  keep-Distinct q [] u = tt
  keep-Distinct q (x ∷ xs) (h, u) = elim (Bool-cases (q x)) [
    | inl c ↦ rw c (All-keep _ q xs h, keep-Distinct q xs u)
    | inr c ↦ rw c (keep-Distinct q xs u)
  ]

  -- A change that no conflict sees keeps a list distinct.
  module _ (f : A → A) (left : (x y : A) → conflict (f x) y ≡ conflict x y)
      (right : (x y : A) → conflict x (f y) ≡ conflict x y) where
    apart-change :
        (q : A → Bool) (x : A) (xs : List A)
        → All (λ y. conflict x y ≡ false) xs
        → All (λ y. conflict x y ≡ false) (change q f xs)
    apart-change q x [] h = tt
    apart-change q x (y ∷ ys) (h, k) = elim (Bool-cases (q y)) [
      | inl c ↦ rw c (right x y ∙ h, apart-change q x ys k)
      | inr c ↦ rw c (h, apart-change q x ys k)
    ]

    pub change-Distinct : (q : A → Bool) (xs : List A) → Distinct xs → Distinct (change q f xs)
    change-Distinct q [] u = tt
    change-Distinct q (x ∷ xs) (h, u) = elim (Bool-cases (q x)) [
      | inl c ↦
          rw c (All-imp _ _ _ (λ y k. left x y ∙ k) (apart-change q x xs h), change-Distinct q xs u)
      | inr c ↦ rw c (apart-change q x xs h, change-Distinct q xs u)
    ]

module _ {ℓ} {A : Type ℓ} where
  -- A change loses at most as many elements of a kind as it acts on.
  pub count-change_le :
      (g q : A → Bool) (f : A → A) (xs : List A) → count g xs ≤ count g (change q f xs) + count q xs
  count-change_le g q f [] = omega arith
  count-change_le g q f (x ∷ xs) = ground (arith, count-change_le g q f xs)

  -- It loses none, if it keeps the kind of what it acts on.
  pub count-change_mono :
      (g q : A → Bool) (f : A → A) (xs : List A)
      → ((x : A) → Memᴰ x xs → q x ≡ true → g x ≡ true → g (f x) ≡ true)
      → count g xs ≤ count g (change q f xs)
  count-change_mono g q f [] h = omega arith
  count-change_mono g q f (x ∷ xs) h =
      ground (arith, h x (Memᴰ.head refl), count-change_mono g q f xs (λ y m. h y (Memᴰ.tail m)))
