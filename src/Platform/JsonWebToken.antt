-- ===== src/Platform/JsonWebToken.antt =====
-- The library behind JwtService. Times are in milliseconds, `exp` claims in seconds.
use hotel_crm.Prelude.{ℕ, ◌*◌, ◌<◌, ◌≡◌, String, Option, some, List}

-- The claims of an access token and of a refresh token; what a token lacks is `none`.
pub record Claims : Type 0 where
  pub sub : String
  pub tenant_id : String
  pub email : Option String
  pub role : Option String
  pub permissions : Option (List String)
  pub token_type : Option String
  pub jti : Option String

pub record Jwt (K : Type 0) : Type 0 where
  -- `signAsync` with a secret and a lifetime such as '30d', at a time.
  pub sign : String → String → ℕ → Claims → K
  -- `verify` with a secret, at a time; `none` where it throws.
  pub verify : String → ℕ → K → Option Claims
  -- The `exp` claim of `decode`.
  pub decode_exp : K → Option ℕ
  -- When a token of this lifetime that is signed at this time expires, in seconds.
  pub expiry : String → ℕ → ℕ
  pub expiry_pos : (lifetime : String) (at : ℕ) → 0 < expiry lifetime at
  pub decode_exp-sign :
      (secret lifetime : String) (at : ℕ) (c : Claims)
      → decode_exp (sign secret lifetime at c) ≡ some (expiry lifetime at)
  pub verify-sign :
      (secret lifetime : String) (at later : ℕ) (c : Claims)
      → later < expiry lifetime at * 1000
      → verify secret later (sign secret lifetime at c) ≡ some c
  -- Under its secret a token yields the claims that it was signed with, or is refused.
  pub verify-sign_some :
      (secret lifetime : String) (at later : ℕ) (c d : Claims)
      → verify secret later (sign secret lifetime at c) ≡ some d
      → d ≡ c
