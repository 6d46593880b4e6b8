-- ===== src/RefreshToken/Steps.antt =====
-- The transactions of the repository as equations, where the tenant is a `uuid`.
use hotel_crm.Prelude.{ℕ, ◌+◌, ◌≡◌, String, Bool, Option, none, some, ◌==◌}
use mathlib.Core.Option
use hotel_crm.Schema.{TokenRow, token_conflict}
use hotel_crm.Platform.{Platform, World}
use hotel_crm.Platform.Results.{ok, err}
use hotel_crm.Tenant.{setting_of, with_tenant}
use hotel_crm.RefreshToken.Repository.{
  NewRefreshToken, stored_of, policy, revoke_at, has_hash, claimable, live_in_family, expired_of,
  new_row, create, insert, stamp, find_by_hash, claim, revoke_family, delete_expired_for_user,
}

module _ {U T R K : Type 0} (p : Platform U T R K) (s : Option String) (w : World U T R) where
  abbrev pub stamped_tokens : (TokenRow → Bool) → T × ℕ
  stamped_tokens q = p.tokens.update_many (policy s) q (revoke_at (p.clock w.reads)) w.tokens

module _ {U T R K : Type 0} (p : Platform U T R K) (tenant : String) (s : Option String)
    (w : World U T R) (e : setting_of p tenant ≡ ok s) where
  pub find_by_hash_lem :
      (hash : String)
      → find_by_hash p tenant hash w
        ≡ (ok (Option.map stored_of (p.tokens.find_first (policy s) (has_hash hash) w.tokens)), w)
  unfolding find_by_hash with_tenant
  find_by_hash_lem hash = rw e

  pub claim_lem :
      (id : String)
      → claim p tenant id w ≡ (
        ok ((stamped_tokens p s w (claimable id)).1 == 1),
        record w { reads = w.reads + 1; tokens = (stamped_tokens p s w (claimable id)).0 },
      )
  unfolding claim stamp with_tenant
  claim_lem id = rw e

  pub revoke_family_lem :
      (family_id : String)
      → revoke_family p tenant family_id w ≡ (
        ok tt,
        record w {
          reads = w.reads + 1;
          tokens = (stamped_tokens p s w (live_in_family family_id)).0;
        },
      )
  unfolding revoke_family stamp with_tenant
  revoke_family_lem family_id = rw e

  pub delete_expired_for_user_lem :
      (user_id : String)
      → delete_expired_for_user p tenant user_id w ≡ (
        ok tt,
        record w {
          reads = w.reads + 1;
          tokens = p.tokens.delete_many (policy s) (expired_of user_id (p.clock w.reads)) w.tokens;
        },
      )
  unfolding delete_expired_for_user with_tenant
  delete_expired_for_user_lem user_id = rw e

  -- An insert that the table takes.
  pub create_lem :
      (new : NewRefreshToken) (u : String) (t : T)
      → p.to_uuid tenant ≡ ok u
      → p.tokens.create
          (policy s)
          token_conflict
          (new_row u (p.random_uuid w.drawn) (p.clock w.reads) new)
          w.tokens
        ≡ some t
      → create p tenant new w
        ≡ (ok tt, record w { tokens = t; reads = w.reads + 1; drawn = w.drawn + 1 })
  unfolding create insert with_tenant
  create_lem new u t f g = rw (e, f, g, insert)

  pub create_refused :
      (new : NewRefreshToken) (u : String)
      → p.to_uuid tenant ≡ ok u
      → p.tokens.create
          (policy s)
          token_conflict
          (new_row u (p.random_uuid w.drawn) (p.clock w.reads) new)
          w.tokens
        ≡ none
      → (create p tenant new w).0
        ≡ err (
            p.tokens.refusal
              (policy s)
              token_conflict
              (new_row u (p.random_uuid w.drawn) (p.clock w.reads) new)
              w.tokens)
  unfolding create insert with_tenant
  create_refused new u f g = rw (e, f, g, insert)
