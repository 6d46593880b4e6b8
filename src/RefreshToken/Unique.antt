-- ===== src/RefreshToken/Unique.antt =====
-- The unique constraints of `refresh_tokens`: no two rows share an id or a hash.
use hotel_crm.Prelude.{
  ℕ, ◌≡◌, refl, sym, String, Bool, true, Option, List, [], ◌∷◌, arith, str_eq_refl, Distinct,
  Distinct-eq, change-Distinct, keep-Distinct, Memᴰ, change, keep,
}
use hotel_crm.Schema.{TokenRow, token_conflict}
use hotel_crm.Platform.{Platform, World}
use hotel_crm.RefreshToken.Repository.{revoke_at}
use hotel_crm.RefreshToken.Effects.{
  Transaction, Effect, same, inserted, stamped, deleted, token_rows, step, step-Effect, run,
}

abbrev pub Unique : List TokenRow → Type 0
Unique = Distinct token_conflict

conflict_of_id : (x y : TokenRow) → x.id ≡ y.id → token_conflict x y ≡ true
conflict_of_id x y e = rw e (rw (str_eq_refl y.id))

conflict_of_hash : (x y : TokenRow) → x.token_hash ≡ y.token_hash → token_conflict x y ≡ true
conflict_of_hash x y e = rw e (ground (arith, str_eq_refl y.token_hash))

pub Unique-id :
    (xs : List TokenRow) (a b : TokenRow) → Unique xs → Memᴰ a xs → Memᴰ b xs → a.id ≡ b.id → a ≡ b
Unique-id xs a b u m n e =
    Distinct-eq token_conflict xs a b u m n (conflict_of_id a b e) (conflict_of_id b a (sym e))

pub Unique-hash :
    (xs : List TokenRow) (a b : TokenRow)
    → Unique xs
    → Memᴰ a xs
    → Memᴰ b xs
    → a.token_hash ≡ b.token_hash
    → a ≡ b
Unique-hash xs a b u m n e =
    Distinct-eq token_conflict xs a b u m n (conflict_of_hash a b e) (conflict_of_hash b a (sym e))

-- Stamping keeps ids and hashes.
pub change-Unique :
    (q : TokenRow → Bool) (at : ℕ) (xs : List TokenRow)
    → Unique xs
    → Unique (change q (revoke_at at) xs)
change-Unique q at xs u =
    change-Distinct token_conflict (revoke_at at) (λ x y. refl) (λ x y. refl) q xs u

pub keep-Unique : (q : TokenRow → Bool) (xs : List TokenRow) → Unique xs → Unique (keep q xs)
keep-Unique q xs u = keep-Distinct token_conflict q xs u

pub Effect-Unique :
    {New : TokenRow → Type 0} {s : Option String} {xs ys : List TokenRow}
    → Effect New s xs ys
    → Unique xs
    → Unique ys
Effect-Unique (same e) u = rw e u
Effect-Unique (inserted r n e a k) u = rw e (k, u)
Effect-Unique {xs} (stamped q at e) u = rw e (change-Unique _ at xs u)
Effect-Unique {xs} (deleted q e) u = rw e (keep-Unique _ xs u)

module _ {U T R K : Type 0} (p : Platform U T R K) where
  -- Whatever transactions run, the rows keep unique ids and hashes, if they had them.
  pub run-Unique :
      (xs : List Transaction) (w : World U T R)
      → Unique (token_rows p w)
      → Unique (token_rows p (run p xs w))
  unfolding run
  run-Unique [] w u = u
  run-Unique (x ∷ xs) w u = run-Unique xs (step p x w) (Effect-Unique (step-Effect p x w) u)
