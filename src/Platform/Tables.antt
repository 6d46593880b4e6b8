-- ===== src/Platform/Tables.antt =====
-- A Prisma model delegate inside a transaction. `policy` is the row-level security policy that
-- PostgreSQL adds to every statement of the transaction; `S` is the state of the table, and `rows`
-- lists what it holds. The laws are those of the documentation of Prisma and PostgreSQL.
use hotel_crm.Prelude.{
  ℕ, ◌≡◌, ◌&&◌, not, Bool, true, false, Option, none, some, List, [], ◌∷◌, Memᴰ, Perm, All, take,
  drop, keep, count, change,
}
use hotel_crm.Platform.Results.{Exception, prisma}

-- No row comes before one that stands earlier.
abbrev pub Sorted : {Row : Type 0} → (Row → Row → Bool) → List Row → Type 0
Sorted before [] = Unit
Sorted before (x ∷ xs) = All (λ y. before y x ≡ false) xs × Sorted before xs

pub record Table (S Row : Type 0) : Type 0 where
  pub rows : S → List Row
  -- Any row that matches.
  pub find_first : (Row → Bool) → (Row → Bool) → S → Option Row
  pub find_first-some :
      (policy where_ : Row → Bool) (s : S) (r : Row)
      → find_first policy where_ s ≡ some r
      → Memᴰ r (rows s) × (policy r ≡ true) × (where_ r ≡ true)
  pub find_first-none :
      (policy where_ : Row → Bool) (s : S)
      → find_first policy where_ s ≡ none
      → All (λ r. (policy r && where_ r) ≡ false) (rows s)
  pub count_rows : (Row → Bool) → (Row → Bool) → S → ℕ
  pub count_rows_lem :
      (policy where_ : Row → Bool) (s : S)
      → count_rows policy where_ s ≡ count (λ r. policy r && where_ r) (rows s)
  -- `findMany` with an order, a number of rows to skip and one to take. Rows that the order does
  -- not tell apart come in any order, which may differ from call to call.
  pub find_many : (Row → Bool) → (Row → Row → Bool) → ℕ → ℕ → S → List Row
  pub find_many_lem :
      (policy : Row → Bool) (before : Row → Row → Bool) (skip limit : ℕ) (s : S)
      → ((a b : Row) → before a b ≡ true → before b a ≡ false)
      → ((a b c : Row) → before b a ≡ false → before c b ≡ false → before c a ≡ false)
      → (sorted : List Row) × Perm sorted (keep policy (rows s))
        × Sorted before sorted
        × (find_many policy before skip limit s ≡ take limit (drop skip sorted))
  -- The new state and the number of rows that matched. The law is for a change under which a
  -- row that the policy admits stays admitted, since any other update is refused.
  pub update_many : (Row → Bool) → (Row → Bool) → (Row → Row) → S → S × ℕ
  pub rows-update_many :
      (policy where_ : Row → Bool) (f : Row → Row) (s : S)
      → ((r : Row) → policy (f r) ≡ policy r)
      → rows (update_many policy where_ f s).0 ≡ change (λ r. policy r && where_ r) f (rows s)
  pub count-update_many :
      (policy where_ : Row → Bool) (f : Row → Row) (s : S)
      → ((r : Row) → policy (f r) ≡ policy r)
      → (update_many policy where_ f s).1 ≡ count (λ r. policy r && where_ r) (rows s)
  pub delete_many : (Row → Bool) → (Row → Bool) → S → S
  pub rows-delete_many :
      (policy where_ : Row → Bool) (s : S)
      → rows (delete_many policy where_ s) ≡ keep (λ r. not (policy r && where_ r)) (rows s)
  -- `none` where the policy, a unique constraint or a foreign key refuses the row; and the
  -- exception that is then thrown, which for a row that the policy admits and a unique constraint
  -- refuses is P2002.
  pub create : (Row → Bool) → (Row → Row → Bool) → Row → S → Option S
  pub rows-create :
      (policy : Row → Bool) (conflict : Row → Row → Bool) (r : Row) (s s' : S)
      → create policy conflict r s ≡ some s'
      → (rows s' ≡ r ∷ rows s) × (policy r ≡ true) × All (λ x. conflict r x ≡ false) (rows s)
  pub refusal : (Row → Bool) → (Row → Row → Bool) → Row → S → Exception
  pub refusal_unique :
      (policy : Row → Bool) (conflict : Row → Row → Bool) (r x : Row) (s : S)
      → policy r ≡ true
      → Memᴰ x (rows s)
      → conflict r x ≡ true
      → refusal policy conflict r s ≡ prisma "P2002"
