-- ===== src/RefreshToken/Effects.antt =====
-- The transactions of the repository as changes of the rows of `refresh_tokens`.
use hotel_crm.Prelude.{
  ℕ, ◌+◌, ◌≤◌, arith, ◌≡◌, refl, String, Bool, true, false, not, Option, none, List, [], ◌∷◌, ◌&&◌,
  All, keep, change, inl, inr, Option-cases,
}
use hotel_crm.Schema.{TokenRow, token_conflict}
use hotel_crm.Platform.{Platform, World}
use hotel_crm.Platform.Results.{Outcome, ok, err, Action, Outcome-cases}
use hotel_crm.Tenant.{with_tenant, setting_of}
use hotel_crm.RefreshToken.Repository.{
  NewRefreshToken, policy, claimable, live_in_family, new_row, revoke_at, insert, stamp, create,
  find_by_hash, claim, revoke_family, delete_expired_for_user,
}

-- A transaction of any request.
pub data Transaction : Type 0 where
  creates : String → NewRefreshToken → Transaction
  finds : String → String → Transaction
  claims : String → String → Transaction
  revokes : String → String → Transaction
  deletes : String → String → Transaction

abbrev pub tenant_of : Transaction → String
tenant_of (creates tenant _) = tenant
tenant_of (finds tenant _) = tenant
tenant_of (claims tenant _) = tenant
tenant_of (revokes tenant _) = tenant
tenant_of (deletes tenant _) = tenant

-- What a transaction under a setting may do to the rows: nothing; insert one row that the policy
-- admits and that conflicts with none; or stamp, or delete, some of the rows it admits.
pub data Effect (New : TokenRow → Type 0) (setting : Option String) (xs ys : List TokenRow)
    : Type 0 where
  same : ys ≡ xs → Effect New setting xs ys
  inserted :
      (r : TokenRow)
      → New r
      → ys ≡ r ∷ xs
      → policy setting r ≡ true
      → All (λ x. token_conflict r x ≡ false) xs
      → Effect New setting xs ys
  stamped :
      (q : TokenRow → Bool) (at : ℕ)
      → ys ≡ change (λ r. policy setting r && q r) (revoke_at at) xs
      → Effect New setting xs ys
  deleted :
      (q : TokenRow → Bool)
      → ys ≡ keep (λ r. not (policy setting r && q r)) xs
      → Effect New setting xs ys

abbrev pub setting_or_null : Outcome (Option String) → Option String
setting_or_null (ok s) = s
setting_or_null (err e) = none

module _ {U T R K : Type 0} (p : Platform U T R K) where
  abbrev pub token_rows : World U T R → List TokenRow
  token_rows w = p.tokens.rows w.tokens

  unfoldable pub step : Transaction → World U T R → World U T R
  step (creates tenant new) w = (create p tenant new w).1
  step (finds tenant hash) w = (find_by_hash p tenant hash w).1
  step (claims tenant id) w = (claim p tenant id w).1
  step (revokes tenant family_id) w = (revoke_family p tenant family_id w).1
  step (deletes tenant user_id) w = (delete_expired_for_user p tenant user_id w).1

  -- Transactions of any number of requests, in the order in which they commit.
  unfoldable pub run : List Transaction → World U T R → World U T R
  run [] w = w
  run (x ∷ xs) w = run xs (step x w)

  -- The row that a transaction may insert has the next UUID and the hash that it was given.
  abbrev pub IsNew : World U T R → Transaction → TokenRow → Type 0
  IsNew w (creates _ new) r = (r.id ≡ p.random_uuid w.drawn) × (r.token_hash ≡ new.token_hash)
  IsNew w _ r = ⊥

  abbrev pub setting : Transaction → Option String
  setting x = setting_or_null (setting_of p (tenant_of x))

  with_tenant-Effect :
      {A : Type 0} {New : TokenRow → Type 0} (tenant : String)
      (work : Option String → Action (World U T R) A) (w : World U T R)
      → ((s : Option String)
          → setting_of p tenant ≡ ok s
          → Effect New s (token_rows w) (token_rows (work s w).1))
      → Effect New
          (setting_or_null (setting_of p tenant))
          (token_rows w)
          (token_rows (with_tenant p tenant work w).1)
  unfolding with_tenant
  with_tenant-Effect tenant work w h = elim (Outcome-cases (setting_of p tenant)) [
    | inl (s, e) ↦ rw e (elim (Outcome-cases (work s w).0) [
      | inl (a, f) ↦ rw f (h s e)
      | inr (x, f) ↦ rw f (same refl)
    ])
    | inr (x, e) ↦ rw e (same refl)
  ]

  insert-Effect :
      (New : TokenRow → Type 0) (s : Option String) (r : TokenRow) (w : World U T R)
      → New r
      → Effect New s (token_rows w) (token_rows (insert p s r w).1)
  unfolding insert
  insert-Effect New s r w n =
      elim (Option-cases (p.tokens.create (policy s) token_conflict r w.tokens)) [
        | inl e ↦ rw (e, insert) (same refl)
        | inr (t, e) ↦
            let (rows, admitted, apart) =
              p.tokens.rows-create (policy s) token_conflict r w.tokens t e in
            rw (e, insert) (inserted r n rows admitted apart)
      ]

  stamp-Effect :
      {New : TokenRow → Type 0} (s : Option String) (q : TokenRow → Bool) (w : World U T R)
      → Effect New s (token_rows w) (token_rows (stamp p s q w).1)
  unfolding stamp
  stamp-Effect s q w =
      stamped q (p.clock w.reads) (p.tokens.rows-update_many (policy s) q _ w.tokens (λ r. refl))

  -- Under row-level security a transaction of the repository does one of four things to the rows
  -- that its setting admits: nothing; insert one row, with the next UUID and the given hash, that
  -- conflicts with no other; stamp some rows; or delete some rows.
  pub step-Effect :
      (x : Transaction) (w : World U T R)
      → Effect (IsNew w x) (setting x) (token_rows w) (token_rows (step x w))
  unfolding step stamp create find_by_hash claim revoke_family delete_expired_for_user
  step-Effect (creates tenant new) w = with_tenant-Effect tenant _ w λ s e.
      elim (Outcome-cases (p.to_uuid tenant)) [
        | inl (u, f) ↦ rw f (
            insert-Effect _ s (new_row u (p.random_uuid w.drawn) (p.clock w.reads) new)
              (record w { reads = w.reads + 1; drawn = w.drawn + 1 }) (refl, refl))
        | inr (x, f) ↦ rw f (same refl)
      ]
  step-Effect (finds tenant hash) w = with_tenant-Effect tenant _ w λ s e. same refl
  step-Effect (claims tenant id) w =
      with_tenant-Effect tenant _ w λ s e. stamp-Effect s (claimable id) w
  step-Effect (revokes tenant family_id) w =
      with_tenant-Effect tenant _ w λ s e. stamp-Effect s (live_in_family family_id) w
  step-Effect (deletes tenant user_id) w =
      with_tenant-Effect tenant _ w
        λ s e. deleted _ (p.tokens.rows-delete_many (policy s) _ w.tokens)

  with_tenant-drawn :
      {A : Type 0} (tenant : String) (work : Option String → Action (World U T R) A)
      (w : World U T R)
      → ((s : Option String) → w.drawn ≤ (work s w).1.drawn)
      → w.drawn ≤ (with_tenant p tenant work w).1.drawn
  unfolding with_tenant
  with_tenant-drawn tenant work w h = elim (Outcome-cases (setting_of p tenant)) [
    | inl (s, e) ↦
        rw e
          (elim (Outcome-cases (work s w).0) [ inl (a, f) ↦ rw f (h s) | inr (x, f) ↦ rw f (h s) ])
    | inr (x, e) ↦ rw e (omega arith)
  ]

  -- No transaction takes a UUID back.
  pub step-drawn : (x : Transaction) (w : World U T R) → w.drawn ≤ (step x w).drawn
  unfolding step stamp insert create find_by_hash claim revoke_family delete_expired_for_user
  step-drawn (creates tenant new) w = with_tenant-drawn tenant _ w λ s. ground arith
  step-drawn (finds tenant hash) w = with_tenant-drawn tenant _ w λ s. omega arith
  step-drawn (claims tenant id) w = with_tenant-drawn tenant _ w λ s. omega arith
  step-drawn (revokes tenant family_id) w = with_tenant-drawn tenant _ w λ s. omega arith
  step-drawn (deletes tenant user_id) w = with_tenant-drawn tenant _ w λ s. omega arith
