-- ===== src/RefreshToken/Service.antt =====
-- backend/src/auth/refresh-token.service.ts. The log lines are left out.
use hotel_crm.Prelude.{
  ℕ, zero, suc, ◌*◌, String, Bool, Option, none, some, List, leb, if◌then◌else◌, str_eq,
}
use hotel_crm.Platform.{Platform, World, now, draw}
use hotel_crm.Platform.Results.{Action, pure, throw, unauthorized, unexpected, ◌>>=◌, ◌>>◌}
use hotel_crm.Platform.JsonWebToken.{Claims}
use hotel_crm.RefreshToken.Repository.{
  StoredRefreshToken, ConsumedRefreshToken, NewRefreshToken, create, find_by_hash, claim,
  delete_expired_for_user,
}
use hotel_crm.RefreshToken.Repository

-- backend/src/auth/types/auth.types.ts
pub record TokenSubject : Type 0 where
  pub id : String
  pub email : String
  pub tenant_id : String
  pub role : String
  pub permissions : List String

abbrev pub invalid_refresh_token : String
invalid_refresh_token = "Invalid refresh token"

abbrev pub no_expiry_claim : String
no_expiry_claim = "Refresh token was signed without an expiry claim"

abbrev pub refresh_claims : TokenSubject → String → Claims
refresh_claims subject jti = record {
  sub = subject.id;
  tenant_id = subject.tenant_id;
  email = none;
  role = none;
  permissions = none;
  token_type = some "refresh";
  jti = some jti;
}

abbrev is_refresh : Option String → Bool
is_refresh none = mathlib.Core.Bool.false
is_refresh (some t) = str_eq t "refresh"

-- `payload.tokenType === 'refresh' ? payload : null`, and `null` where verifying threw.
abbrev pub refresh_only : Option Claims → Option Claims
refresh_only none = none
refresh_only (some c) = if is_refresh c.token_type then some c else none

module _ {U T R K : Type 0} (p : Platform U T R K) where
  unfoldable pub start_family : Action (World U T R) String
  start_family = draw p

  unfoldable pub hash : K → String
  hash raw = p.sha256 raw

  -- The getters `refreshSecret` and `refreshExpiresIn`.
  abbrev pub refresh_secret : String
  refresh_secret = p.env.jwt_refresh_secret

  abbrev pub refresh_expires_in : String
  refresh_expires_in = p.env.jwt_refresh_expires_in

  unfoldable pub sign_refresh : ℕ → Claims → K
  sign_refresh at c = p.jwt.sign refresh_secret refresh_expires_in at c

  unfoldable pub milliseconds : Option ℕ → Action (World U T R) ℕ
  milliseconds none = throw (unexpected no_expiry_claim)
  milliseconds (some zero) = throw (unexpected no_expiry_claim)
  milliseconds (some (suc n)) = pure (suc n * 1000)

  unfoldable pub expires_at_of : K → Action (World U T R) ℕ
  unfolding milliseconds
  expires_at_of token = milliseconds (p.jwt.decode_exp token)

  unfoldable pub issue : TokenSubject → String → Action (World U T R) K
  issue subject family_id = do
    jti ← draw p
    at ← now p
    let token = sign_refresh at (refresh_claims subject jti)
    delete_expired_for_user p subject.tenant_id subject.id
    expires_at ← expires_at_of token
    create p subject.tenant_id (record {
      user_id = subject.id;
      family_id = family_id;
      token_hash = hash token;
      expires_at = expires_at;
    })
    pure token

  unfoldable pub try_verify : K → Action (World U T R) (Option Claims)
  try_verify raw = do at ← now p; pure (refresh_only (p.jwt.verify refresh_secret at raw))

  unfoldable pub or_invalid : {A : Type 0} → Option A → Action (World U T R) A
  or_invalid none = throw (unauthorized invalid_refresh_token)
  or_invalid (some a) = pure a

  unfoldable pub verify : K → Action (World U T R) Claims
  unfolding or_invalid
  verify raw = do payload ← try_verify raw; or_invalid payload

  -- A stored token whose time has not come.
  unfoldable pub unexpired : Option StoredRefreshToken → Action (World U T R) StoredRefreshToken
  unexpired none = throw (unauthorized invalid_refresh_token)
  unexpired (some stored) = do
    at ← now p
    if leb stored.expires_at at then throw (unauthorized invalid_refresh_token) else pure stored

  unfoldable pub settle :
      String → StoredRefreshToken → Bool → Action (World U T R) ConsumedRefreshToken
  settle tenant_id stored claimed =
      if claimed
      then pure
          (record { user_id = stored.user_id; tenant_id = tenant_id; family_id = stored.family_id })
      else (Repository.revoke_family p tenant_id stored.family_id
          >> throw (unauthorized invalid_refresh_token))

  unfoldable pub consume : K → Action (World U T R) ConsumedRefreshToken
  consume raw = do
    payload ← verify raw
    found ← find_by_hash p payload.tenant_id (hash raw)
    stored ← unexpired found
    claimed ← claim p payload.tenant_id stored.id
    settle payload.tenant_id stored claimed

  unfoldable pub revoke_family : String → String → Action (World U T R) (Unit {0})
  revoke_family tenant_id family_id = Repository.revoke_family p tenant_id family_id

  unfoldable pub end_family : String → Option StoredRefreshToken → Action (World U T R) (Unit {0})
  end_family tenant_id none = pure tt
  end_family tenant_id (some stored) = Repository.revoke_family p tenant_id stored.family_id

  unfoldable pub end_session : K → Option Claims → Action (World U T R) (Unit {0})
  unfolding end_family
  end_session raw none = pure tt
  end_session raw (some payload) = do
    found ← find_by_hash p payload.tenant_id (hash raw)
    end_family payload.tenant_id found

  unfoldable pub revoke_session : K → Action (World U T R) (Unit {0})
  unfolding end_session
  revoke_session raw = do payload ← try_verify raw; end_session raw payload
