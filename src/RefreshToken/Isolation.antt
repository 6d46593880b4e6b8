-- ===== src/RefreshToken/Isolation.antt =====
-- Row-level security over histories of transactions.
use hotel_crm.Prelude.{
  ◌≡◌, refl, ◌≢◌, ◌∙◌, String, Bool, true, false, Option, none, some, List, [], ◌∷◌, All, keep,
  arith, str_eq, str_eq-true, keep-change, keep-keep,
}
use hotel_crm.Schema.{TokenRow}
use hotel_crm.Platform.{Platform, World}
use hotel_crm.RefreshToken.Repository.{policy, revoke_at}
use hotel_crm.RefreshToken.Effects.{
  Transaction, Effect, same, inserted, stamped, deleted, token_rows, setting, step, step-Effect,
  run,
}

abbrev pub in_tenant : String → TokenRow → Bool
in_tenant t r = str_eq r.tenant_id t

-- A policy under another setting admits no row of the tenant.
policy_elsewhere :
    (s : Option String) (t : String) (r : TokenRow)
    → s ≢ some t
    → policy s r ≡ true
    → in_tenant t r ≡ false
policy_elsewhere none t r h e = cc
policy_elsewhere (some u) t r h e =
    ground (arith, str_eq-true r.tenant_id u, str_eq-true r.tenant_id t)

Effect-elsewhere :
    {New : TokenRow → Type 0} {s : Option String} {xs ys : List TokenRow} (t : String)
    → s ≢ some t
    → Effect New s xs ys
    → keep (in_tenant t) ys ≡ keep (in_tenant t) xs
Effect-elsewhere t h (same e) = rw e
Effect-elsewhere {s} t h (inserted r n e a k) = rw (e, policy_elsewhere s t r h a)
Effect-elsewhere {s} {xs} t h (stamped q at e) = rw e (
    keep-change _ _ (revoke_at at) xs
      λ x c. let e : in_tenant t x ≡ false = policy_elsewhere s t x h (ground arith) in (e, e))
Effect-elsewhere {s} {xs} t h (deleted q e) =
    rw e (keep-keep _ _ xs λ x c. policy_elsewhere s t x h (ground arith))

module _ {U T R K : Type 0} (p : Platform U T R K) where
  -- Whatever transactions run, if the setting of none is the tenant, the refresh tokens of the
  -- tenant stay as they are.
  pub run-isolated :
      (t : String) (xs : List Transaction) (w : World U T R)
      → All (λ x. setting p x ≢ some t) xs
      → keep (in_tenant t) (token_rows p (run p xs w)) ≡ keep (in_tenant t) (token_rows p w)
  unfolding run
  run-isolated t [] w h = refl
  run-isolated t (x ∷ xs) w (h, k) =
      run-isolated t xs (step p x w) k ∙ Effect-elsewhere t h (step-Effect p x w)
