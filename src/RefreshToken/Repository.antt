-- ===== src/RefreshToken/Repository.antt =====
-- backend/src/auth/refresh-tokens.repository.ts, with the types of types/refresh-token.types.ts.
-- Each function is one transaction. Ids that were read from a row or drawn are canonical, so only
-- the tenant is converted to a `uuid`.
use hotel_crm.Prelude.{ℕ, String, Bool, true, false, Option, none, some, ◌&&◌, ltb, ◌==◌, str_eq}
use mathlib.Core.Option
use hotel_crm.Schema.{TokenRow, token_conflict}
use hotel_crm.Platform.{Platform, World, now, draw, as_uuid}
use hotel_crm.Platform.Results.{ok, err, Action, pure, ◌>>=◌}
use hotel_crm.Tenant.{admits, with_tenant}

pub record NewRefreshToken : Type 0 where
  pub user_id : String
  pub family_id : String
  pub token_hash : String
  pub expires_at : ℕ

pub record StoredRefreshToken : Type 0 where
  pub id : String
  pub user_id : String
  pub family_id : String
  pub expires_at : ℕ

pub record ConsumedRefreshToken : Type 0 where
  pub user_id : String
  pub tenant_id : String
  pub family_id : String

-- STORED_REFRESH_TOKEN_SELECT
abbrev pub stored_of : TokenRow → StoredRefreshToken
stored_of r = record {
  id = r.id;
  user_id = r.user_id;
  family_id = r.family_id;
  expires_at = r.expires_at;
}

abbrev pub policy : Option String → TokenRow → Bool
policy setting r = admits setting r.tenant_id

abbrev is_null : Option ℕ → Bool
is_null none = true
is_null (some _) = false

abbrev pub is_live : TokenRow → Bool
is_live r = is_null r.revoked_at

abbrev pub revoke_at : ℕ → TokenRow → TokenRow
revoke_at at r = record r { revoked_at = some at }

-- The filters of the statements.
abbrev pub has_hash : String → TokenRow → Bool
has_hash hash r = str_eq r.token_hash hash

abbrev pub claimable : String → TokenRow → Bool
claimable id r = str_eq r.id id && is_live r

abbrev pub live_in_family : String → TokenRow → Bool
live_in_family family_id r = str_eq r.family_id family_id && is_live r

abbrev pub expired_of : String → ℕ → TokenRow → Bool
expired_of user_id at r = str_eq r.user_id user_id && ltb r.expires_at at

abbrev pub new_row : String → String → ℕ → NewRefreshToken → TokenRow
new_row tenant_id id at new = record {
  id = id;
  tenant_id = tenant_id;
  user_id = new.user_id;
  family_id = new.family_id;
  token_hash = new.token_hash;
  expires_at = new.expires_at;
  revoked_at = none;
  created_at = at;
}

module _ {U T R K : Type 0} (p : Platform U T R K) where
  unfoldable pub insert : Option String → TokenRow → Action (World U T R) (Unit {0})
  insert setting row w = elim (p.tokens.create (policy setting) token_conflict row w.tokens) [
    | none ↦ (err (p.tokens.refusal (policy setting) token_conflict row w.tokens), w)
    | some s ↦ (ok tt, record w { tokens = s })
  ]

  -- `updateMany` that stamps `revokedAt`; the number of rows.
  unfoldable pub stamp : Option String → (TokenRow → Bool) → Action (World U T R) ℕ
  stamp setting where_ = do
    at ← now p
    λ w.
        let (s, count) = p.tokens.update_many (policy setting) where_ (revoke_at at) w.tokens in
        (ok count, record w { tokens = s })

  unfoldable pub create : String → NewRefreshToken → Action (World U T R) (Unit {0})
  create tenant new = with_tenant p tenant λ setting. do
    tenant_id ← as_uuid p tenant
    id ← draw p
    at ← now p
    insert setting (new_row tenant_id id at new)

  unfoldable pub find_by_hash : String → String → Action (World U T R) (Option StoredRefreshToken)
  find_by_hash tenant hash = with_tenant p tenant λ setting w.
      (ok (Option.map stored_of (p.tokens.find_first (policy setting) (has_hash hash) w.tokens)), w)

  unfoldable pub claim : String → String → Action (World U T R) Bool
  claim tenant id =
      with_tenant p tenant λ setting. do count ← stamp setting (claimable id); pure (count == 1)

  unfoldable pub revoke_family : String → String → Action (World U T R) (Unit {0})
  revoke_family tenant family_id =
      with_tenant p tenant λ setting. do count ← stamp setting (live_in_family family_id); pure tt

  unfoldable pub delete_expired_for_user : String → String → Action (World U T R) (Unit {0})
  delete_expired_for_user tenant user_id = with_tenant p tenant λ setting. do
    at ← now p
    λ w. (
      ok tt,
      record w { tokens = p.tokens.delete_many (policy setting) (expired_of user_id at) w.tokens },
    )
