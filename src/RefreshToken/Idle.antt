-- ===== src/RefreshToken/Idle.antt =====
-- The transactions of the repository leave users alone.
use hotel_crm.Prelude.{◌≡◌, refl, String, Option, arith, inl, inr}
use hotel_crm.Platform.{Platform, World}
use hotel_crm.Platform.Results.{Action, Outcome-cases}
use hotel_crm.Tenant.{with_tenant, setting_of}
use hotel_crm.RefreshToken.Repository.{
  insert, stamp, create, find_by_hash, claim, revoke_family, delete_expired_for_user,
}
use hotel_crm.RefreshToken.Effects.{Transaction, creates, finds, claims, revokes, deletes, step}

-- Transactions that store no token.
abbrev pub StoresNone : Transaction → Type 0
StoresNone (creates _ _) = ⊥
StoresNone _ = Unit {0}

module _ {U T R K : Type 0} (p : Platform U T R K) where
  with_tenant-users :
      {A : Type 0} (tenant : String) (work : Option String → Action (World U T R) A)
      (w : World U T R)
      → ((s : Option String) → (work s w).1.users ≡ w.users)
      → (with_tenant p tenant work w).1.users ≡ w.users
  unfolding with_tenant
  with_tenant-users tenant work w h = elim (Outcome-cases (setting_of p tenant)) [
    | inr (x, e) ↦ rw e refl
    | inl (s, e) ↦
        rw e
          (elim (Outcome-cases (work s w).0) [ inl (a, f) ↦ rw f (h s) | inr (x, f) ↦ rw f refl ])
  ]

  pub step-users : (x : Transaction) (w : World U T R) → (step p x w).users ≡ w.users
  unfolding step stamp insert create find_by_hash claim revoke_family delete_expired_for_user
  step-users (creates tenant new) w = with_tenant-users tenant _ w λ s. ground arith
  step-users (finds tenant hash) w = with_tenant-users tenant _ w λ s. refl
  step-users (claims tenant id) w = with_tenant-users tenant _ w λ s. refl
  step-users (revokes tenant family_id) w = with_tenant-users tenant _ w λ s. refl
  step-users (deletes tenant user_id) w = with_tenant-users tenant _ w λ s. refl
