-- ===== src/RefreshToken/Separate.antt =====
-- Access tokens and refresh tokens are not exchanged for one another.
use hotel_crm.Prelude.{ℕ, ◌+◌, ◌≡◌, refl, ap, ◌∙◌, String, none, some, inl, inr, Option-cases}
use hotel_crm.Platform.{Platform, World}
use hotel_crm.Platform.Results.{err, unauthorized}
use hotel_crm.RefreshToken.Service.{
  TokenSubject, consume, verify, try_verify, or_invalid, refresh_only, invalid_refresh_token,
}
use hotel_crm.RefreshToken.Reuse.{verified}
use hotel_crm.Auth.Sessions.{access_claims}

module _ {U T R K : Type 0} (p : Platform U T R K) where
  access-verified :
      (subject : TokenSubject) (lifetime : String) (at : ℕ) (w : World U T R)
      → verified p (p.jwt.sign p.env.jwt_refresh_secret lifetime at (access_claims subject)) w
        ≡ none
  access-verified subject lifetime at w =
      let raw = p.jwt.sign p.env.jwt_refresh_secret lifetime at (access_claims subject) in
      elim (Option-cases (p.jwt.verify p.env.jwt_refresh_secret (p.clock w.reads) raw)) [
        | inl e ↦ ap refresh_only e
        | inr (c, e) ↦ ap refresh_only (e ∙ ap some (p.jwt.verify-sign_some _ lifetime at _ _ c e))
      ]

  -- Even where access tokens are signed with the secret of refresh tokens, an access token is refused
  -- as a refresh token, and every row stays as it is.
  pub consume-access :
      (subject : TokenSubject) (lifetime : String) (at : ℕ) (w : World U T R)
      → p.env.jwt_secret ≡ p.env.jwt_refresh_secret
      → consume p (p.jwt.sign p.env.jwt_secret lifetime at (access_claims subject)) w
        ≡ (err (unauthorized invalid_refresh_token), record w { reads = w.reads + 1 })
  unfolding consume verify try_verify or_invalid
  consume-access subject lifetime at w same = rw (same, access-verified subject lifetime at w) refl
