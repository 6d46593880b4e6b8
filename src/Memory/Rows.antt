-- ===== src/Memory/Rows.antt =====
-- A table as a list, the newest row first.
use hotel_crm.Prelude.{
  ℕ, ◌≡◌, refl, Bool, true, false, not, Option, none, some, List, [], ◌∷◌, ◌&&◌, ◌||◌, Memᴰ, All,
  arith, take, drop, keep, count, change, if◌then◌else◌, Bool-cases, inl, inr,
}
use hotel_crm.Platform.Results.{prisma, unexpected}
use hotel_crm.Platform.Tables.{Table}
use hotel_crm.Memory.Sorting.{sort, sort-perm, sort-Sorted}

module _ {A : Type 0} where
  abbrev pub first : (A → Bool) → List A → Option A
  first q [] = none
  first q (x ∷ xs) = if q x then some x else first q xs

  pub first-some :
      (v q : A → Bool) (xs : List A) (r : A)
      → first (λ x. v x && q x) xs ≡ some r
      → Memᴰ r xs × (v r ≡ true) × (q r ≡ true)
  first-some v q [] r h = absurd (ground arith)
  first-some v q (x ∷ xs) r h = elim (Bool-cases (v x && q x)) [
    | inl e ↦
        let same : r ≡ x = ground arith in
        (Memᴰ.head same, rw same (ground arith), rw same (ground arith))
    | inr e ↦ let (m, a, b) = first-some v q xs r (rw e at h) in (Memᴰ.tail m, a, b)
  ]

  pub first-none : (q : A → Bool) (xs : List A) → first q xs ≡ none → All (λ x. q x ≡ false) xs
  first-none q [] h = tt
  first-none q (x ∷ xs) h = elim (Bool-cases (q x)) [
    | inl e ↦ absurd (ground arith)
    | inr e ↦ (e, first-none q xs (rw e at h))
  ]

  -- Whether a row would break a constraint.
  abbrev pub refused : (A → A → Bool) → A → List A → Bool
  refused c r [] = false
  refused c r (x ∷ xs) = c r x || refused c r xs

  refused-false :
      (c : A → A → Bool) (r : A) (xs : List A)
      → refused c r xs ≡ false
      → All (λ x. c r x ≡ false) xs
  refused-false c r [] h = tt
  refused-false c r (x ∷ xs) h = (ground arith, refused-false c r xs (ground arith))

  abbrev pub store : (A → Bool) → (A → A → Bool) → A → List A → Option (List A)
  store v c r xs = if v r then (if refused c r xs then none else some (r ∷ xs)) else none

  pub store-some :
      (v : A → Bool) (c : A → A → Bool) (r : A) (xs ys : List A)
      → store v c r xs ≡ some ys
      → (ys ≡ r ∷ xs) × (v r ≡ true) × All (λ x. c r x ≡ false) xs
  store-some v c r xs ys h = (ground arith, ground arith, refused-false c r xs (ground arith))

  abbrev pub page : (A → Bool) → (A → A → Bool) → ℕ → ℕ → List A → List A
  page v before skip limit xs = take limit (drop skip (sort before (keep v xs)))

abbrev pub list_table : {A : Type 0} → Table (List A) A
list_table = record {
  rows = λ xs. xs;
  find_first = λ v q xs. first (λ x. v x && q x) xs;
  find_first-some = first-some;
  find_first-none = λ v q xs h. first-none (λ x. v x && q x) xs h;
  count_rows = λ v q xs. count (λ x. v x && q x) xs;
  count_rows_lem = λ v q xs. refl;
  find_many = page;
  find_many_lem = λ v before skip limit xs asym trans. (
    sort before (keep v xs),
    sort-perm before (keep v xs),
    sort-Sorted before asym trans (keep v xs),
    refl,
  );
  update_many = λ v q f xs. (change (λ x. v x && q x) f xs, count (λ x. v x && q x) xs);
  rows-update_many = λ v q f xs h. refl;
  count-update_many = λ v q f xs h. refl;
  delete_many = λ v q xs. keep (λ x. not (v x && q x)) xs;
  rows-delete_many = λ v q xs. refl;
  create = store;
  rows-create = store-some;
  refusal =
      λ v c r xs. if v r then prisma "P2002" else unexpected "PrismaClientUnknownRequestError";
  refusal_unique = λ v c r x xs h m k. rw h refl;
}
