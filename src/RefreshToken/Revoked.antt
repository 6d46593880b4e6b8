-- ===== src/RefreshToken/Revoked.antt =====
-- Rows of refresh tokens that are revoked stay so, whatever transactions run.
use hotel_crm.Prelude.{
  ℕ, ◌≤◌, ◌≡◌, refl, ◌≢◌, String, Bool, true, false, Option, List, [], ◌∷◌, ◌&&◌, All, arith,
  str_eq, str_eq_ne, All-imp, All-keep, All-change, count-eq-zero, inl, inr,
}
use hotel_crm.Schema.{TokenRow}
use hotel_crm.Platform.{Platform, World}
use hotel_crm.Platform.Results.{ok, Outcome-cases}
use hotel_crm.Tenant.{setting_of, with_tenant}
use hotel_crm.RefreshToken.Repository.{policy, revoke_at, is_live, claimable, claim, stamp}
use hotel_crm.RefreshToken.Effects.{
  Transaction, creates, finds, claims, revokes, deletes, Effect, same, inserted, stamped, deleted,
  token_rows, step, step-Effect, run, IsNew, step-drawn,
}

-- No live row passes the test.
abbrev pub AllRevoked : (TokenRow → Bool) → List TokenRow → Type 0
AllRevoked q = All (λ r. (q r && is_live r) ≡ false)

pub Effect-AllRevoked :
    {New : TokenRow → Type 0} {s : Option String} {xs ys : List TokenRow} (q : TokenRow → Bool)
    → ((r : TokenRow) → New r → q r ≡ false)
    → Effect New s xs ys
    → AllRevoked q xs
    → AllRevoked q ys
Effect-AllRevoked q h (same e) d = rw e d
Effect-AllRevoked q h (inserted r n e a k) d = rw e (ground (arith, h r n), d)
Effect-AllRevoked q h (stamped f at e) d =
    rw e (All-change _ _ (revoke_at at) _ (λ r d. ground arith) d)
Effect-AllRevoked q h (deleted f e) d = rw e (All-keep _ _ _ d)

module _ {U T R K : Type 0} (p : Platform U T R K) where
  -- UUIDs that are still to be drawn differ from this one.
  abbrev pub IsDrawn : String → World U T R → Type 0
  IsDrawn id w = (n : ℕ) → w.drawn ≤ n → p.random_uuid n ≢ id

  IsNew-id :
      (id : String) (x : Transaction) (w : World U T R)
      → IsDrawn id w
      → (r : TokenRow) → IsNew p w x r
      → str_eq r.id id ≡ false
  IsNew-id id (creates tenant new) w f r (same_id, _) =
      rw same_id (str_eq_ne _ _ (f w.drawn (omega arith)))
  IsNew-id id (finds _ _) w f r n = elim n [ ]
  IsNew-id id (claims _ _) w f r n = elim n [ ]
  IsNew-id id (revokes _ _) w f r n = elim n [ ]
  IsNew-id id (deletes _ _) w f r n = elim n [ ]

  pub run-AllRevoked :
      (id : String) (xs : List Transaction) (w : World U T R)
      → IsDrawn id w
      → AllRevoked (λ r. str_eq r.id id) (token_rows p w)
      → AllRevoked (λ r. str_eq r.id id) (token_rows p (run p xs w))
  unfolding run
  run-AllRevoked id [] w f d = d
  run-AllRevoked id (x ∷ xs) w f d =
      run-AllRevoked id xs (step p x w) (λ n h. f n (omega (arith, step-drawn p x w)))
        (Effect-AllRevoked _ (IsNew-id id x w f) (step-Effect p x w) d)

  -- Once the rows with an id are revoked, no claim of it succeeds, under any tenant.
  pub claim-revoked :
      (tenant id : String) (w : World U T R)
      → AllRevoked (λ r. str_eq r.id id) (token_rows p w)
      → (claim p tenant id w).0 ≢ ok true
  unfolding claim with_tenant stamp
  claim-revoked tenant id w d = elim (Outcome-cases (setting_of p tenant)) [
    | inl (s, e) ↦ rw e (
        ground (
          arith,
          p.tokens.count-update_many (policy s) (claimable id) (revoke_at (p.clock w.reads))
              w.tokens (λ r. refl),
          count-eq-zero (λ r. policy s r && claimable id r) (token_rows p w)
              (All-imp _ _ (token_rows p w) (λ r h. ground arith) d),
        ))
    | inr (x, e) ↦ rw e (λ f. cc)
  ]
