-- ===== src/Seed/Keys.antt =====
-- What an upsert brings about, and what it leaves.
use hotel_crm.Prelude.{
  suc, ◌≡◌, refl, ap, subst, Bool, true, false, List, [], ◌∷◌, Memᴰ, All, change, length,
  Bool-cases, inl, inr, All-of_change, All-imp,
}
use hotel_crm.Platform.Results.{ok}
use hotel_crm.Seed.Tables.{Upserts}

length-change :
    {A : Type 0} (q : A → Bool) (f : A → A) (xs : List A) → length (change q f xs) ≡ length xs
length-change q f [] = refl
length-change q f (x ∷ xs) = ap suc (length-change q f xs)

module _ {Row : Type 0} where
  -- Some row passes the test.
  abbrev pub Has : (Row → Bool) → List Row → Type 0
  Has q rows = (r : Row) × Memᴰ r rows × (q r ≡ true)

  Has-change :
      (p q : Row → Bool) (f : Row → Row) (rows : List Row)
      → ((x : Row) → p x ≡ true → p (f x) ≡ true)
      → Has p rows
      → Has p (change q f rows)
  Has-change p q f [] s (r, m, h) = elim m [ ]
  Has-change p q f (x ∷ xs) s (r, Memᴰ.tail m, h) =
      let (y, n, k) = Has-change p q f xs s (r, m, h) in (y, Memᴰ.tail n, k)
  Has-change p q f (x ∷ xs) s (r, Memᴰ.head e, h) =
      let here : p x ≡ true = subst (λ y. p y ≡ true) e h in
      elim (Bool-cases (q x)) [
        | inl g ↦ (f x, Memᴰ.head (rw g), s x here)
        | inr g ↦ (x, Memᴰ.head (rw g), here)
      ]

  All-changed :
      (P : Row → Type 0) (q : Row → Bool) (f : Row → Row) (xs : List Row)
      → ((x : Row) → P x → q x ≡ true → P (f x))
      → All P xs
      → All P (change q f xs)
  All-changed P q f [] s h = tt
  All-changed P q f (x ∷ xs) s (h, k) = elim (Bool-cases (q x)) [
    | inl e ↦ rw e (s x h e, All-changed P q f xs s k)
    | inr e ↦ rw e (h, All-changed P q f xs s k)
  ]

module _ {Row : Type 0} {conflict : Row → Row → Bool} (u : Upserts Row conflict)
    (where_ : Row → Bool) (update : Row → Row) (new a : Row) (rows rows' : List Row)
    (e : u.upsert where_ update new rows ≡ (ok a, rows')) where
  pub upserted-Has :
      ((x : Row) → where_ x ≡ true → where_ (update x) ≡ true)
      → where_ new ≡ true
      → Has where_ rows'
  upserted-Has s n = elim (u.upsert-ok where_ update new a rows rows' e) [
    | inl (r, m, h, _, f) ↦ rw f (Has-change where_ where_ update rows s (r, m, h))
    | inr (_, f, _) ↦ rw f (new, Memᴰ.head refl, n)
  ]

  pub kept-Has :
      (p : Row → Bool) → ((x : Row) → p x ≡ true → p (update x) ≡ true) → Has p rows → Has p rows'
  kept-Has p s (r, m, h) = elim (u.upsert-ok where_ update new a rows rows' e) [
    | inl (_, _, _, _, f) ↦ rw f (Has-change p where_ update rows s (r, m, h))
    | inr (_, f, _) ↦ rw f (r, Memᴰ.tail m, h)
  ]

  pub upserted-All :
      (P : Row → Type 0)
      → ((x : Row) → where_ x ≡ true → P (update x))
      → ((x : Row) → where_ x ≡ false → P x)
      → P new
      → All P rows'
  upserted-All P s t n = elim (u.upsert-ok where_ update new a rows rows' e) [
    | inl (_, _, _, _, f) ↦ rw f (All-of_change P where_ update rows s t)
    | inr (_, f, none_) ↦ rw f (n, All-imp _ P rows t none_)
  ]

  pub kept-All :
      (P : Row → Type 0)
      → ((x : Row) → P x → where_ x ≡ true → P (update x))
      → P new
      → All P rows
      → All P rows'
  kept-All P s n h = elim (u.upsert-ok where_ update new a rows rows' e) [
    | inl (_, _, _, _, f) ↦ rw f (All-changed P where_ update rows s h)
    | inr (_, f, _) ↦ rw f (n, h)
  ]

-- An upsert of a row that is there succeeds, and the table keeps its size.
pub upsert-again :
    {Row : Type 0} {conflict : Row → Row → Bool} (u : Upserts Row conflict) (where_ : Row → Bool)
    (update : Row → Row) (new : Row) (rows : List Row)
    → Has where_ rows
    → All (λ x. where_ x ≡ true → (y : Row) → conflict (update x) y ≡ conflict x y) rows
    → (a : Row) × (rows' : List Row) × (u.upsert where_ update new rows ≡ (ok a, rows'))
      × (length rows' ≡ length rows)
upsert-again u where_ update new rows (r, m, h) s =
    let (a, e) = u.upsert-found where_ update new r rows m h s in
    (a, change where_ update rows, e, length-change where_ update rows)
