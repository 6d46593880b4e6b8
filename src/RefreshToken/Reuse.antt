-- ===== src/RefreshToken/Reuse.antt =====
-- A refresh token that is used a second time takes its family down; a log-out does so too.
use hotel_crm.Prelude.{
  ◌+◌, ◌<◌, ◌≡◌, refl, ◌∙◌, String, Bool, Option, some, ◌&&◌, arith, str_eq, All-imp, All-of_change,
  count-eq-zero,
}
use hotel_crm.Schema.{TokenRow}
use hotel_crm.Platform.{Platform, World}
use hotel_crm.Platform.Results.{ok, err, unauthorized}
use hotel_crm.Platform.JsonWebToken.{Claims}
use hotel_crm.Tenant.{setting_of}
use hotel_crm.RefreshToken.Repository.{
  StoredRefreshToken, stored_of, policy, revoke_at, claimable, live_in_family, has_hash,
}
use hotel_crm.RefreshToken.Service.{
  consume, verify, try_verify, or_invalid, unexpired, settle, hash, refresh_only,
  invalid_refresh_token, revoke_session, end_session, end_family,
}
use hotel_crm.RefreshToken.Effects.{token_rows}
use hotel_crm.RefreshToken.Steps.{find_by_hash_lem, claim_lem, revoke_family_lem, stamped_tokens}
use hotel_crm.RefreshToken.Revoked.{AllRevoked}

abbrev pub in_family : Option String → String → TokenRow → Bool
in_family s family_id x = policy s x && str_eq x.family_id family_id

abbrev pub has_id : Option String → String → TokenRow → Bool
has_id s id x = policy s x && str_eq x.id id

module _ {U T R K : Type 0} (p : Platform U T R K) (s : Option String) (w : World U T R) where
  -- Stamping a family leaves none of its rows live.
  pub family-AllRevoked :
      (family_id : String)
      → AllRevoked
          (in_family s family_id)
          (p.tokens.rows (stamped_tokens p s w (live_in_family family_id)).0)
  family-AllRevoked family_id =
      rw
        (p.tokens.rows-update_many (policy s) (live_in_family family_id)
          (revoke_at (p.clock w.reads)) w.tokens (λ r. refl))
        (All-of_change _ _ (revoke_at (p.clock w.reads)) (token_rows p w) (λ x h. ground arith)
          (λ x h. ground arith))

  -- A claim of an id whose rows are revoked stamps none.
  claim-count :
      (id : String)
      → AllRevoked (has_id s id) (token_rows p w)
      → (stamped_tokens p s w (claimable id)).1 ≡ 0
  claim-count id d =
      p.tokens.count-update_many (policy s) (claimable id) (revoke_at (p.clock w.reads)) w.tokens
        (λ r. refl)
      ∙ count-eq-zero _ (token_rows p w) (All-imp _ _ (token_rows p w) (λ x h. ground arith) d)

module _ {U T R K : Type 0} (p : Platform U T R K) (w : World U T R) where
  pub unexpired_lem :
      (stored : StoredRefreshToken)
      → p.clock w.reads < stored.expires_at
      → unexpired p (some stored) w ≡ (ok stored, record w { reads = w.reads + 1 })
  unfolding unexpired
  unexpired_lem stored h = ground arith

module _ {U T R K : Type 0} (p : Platform U T R K) (raw : K) (w : World U T R) where
  -- What the verification of a token reads.
  abbrev pub verified : Option Claims
  verified = refresh_only (p.jwt.verify p.env.jwt_refresh_secret (p.clock w.reads) raw)

  pub verify_lem :
      (c : Claims) → verified ≡ some c → verify p raw w ≡ (ok c, record w { reads = w.reads + 1 })
  unfolding verify try_verify or_invalid
  verify_lem c e = rw (e, or_invalid)

  -- The use of a token that verifies, and whose row is found under the tenant, has not expired and
  -- is revoked, with every row of its id, fails with 401, and afterwards no row of its family under
  -- the tenant is live.
  pub consume-reuse :
      (c : Claims) (s : Option String) (r : TokenRow)
      → verified ≡ some c
      → setting_of p c.tenant_id ≡ ok s
      → p.tokens.find_first (policy s) (has_hash (hash p raw)) w.tokens ≡ some r
      → p.clock (w.reads + 1) < r.expires_at
      → AllRevoked (has_id s r.id) (token_rows p w)
      → ((consume p raw w).0 ≡ err (unauthorized invalid_refresh_token))
        × AllRevoked (in_family s r.family_id) (token_rows p (consume p raw w).1)
  unfolding consume settle
  consume-reuse c s r e f g time d =
      let w1 : World U T R = record w { reads = w.reads + 1 } in
      let w2 : World U T R = record w { reads = w.reads + 1 + 1 } in
      let w3 : World U T R = record w2 {
        reads = w2.reads + 1;
        tokens = (stamped_tokens p s w2 (claimable r.id)).0;
      } in
      rw
        (
          verify_lem c e,
          find_by_hash_lem p c.tenant_id s w1 f (hash p raw),
          g,
          unexpired_lem p w1 (stored_of r) time,
          claim_lem p c.tenant_id s w2 f r.id,
          claim-count p s w2 r.id d,
          revoke_family_lem p c.tenant_id s w3 f r.family_id,
        )
        (refl, family-AllRevoked p s w3 r.family_id)

  -- A log-out with a token that verifies and whose row is there succeeds, and afterwards no row
  -- of the token's family under the tenant is live.
  pub revoke_session-AllRevoked :
      (c : Claims) (s : Option String) (r : TokenRow)
      → verified ≡ some c
      → setting_of p c.tenant_id ≡ ok s
      → p.tokens.find_first (policy s) (has_hash (hash p raw)) w.tokens ≡ some r
      → ((revoke_session p raw w).0 ≡ ok tt)
        × AllRevoked (in_family s r.family_id) (token_rows p (revoke_session p raw w).1)
  unfolding revoke_session try_verify
  revoke_session-AllRevoked c s r e f g =
      let w1 : World U T R = record w { reads = w.reads + 1 } in
      rw
        (
          e,
          end_session,
          find_by_hash_lem p c.tenant_id s w1 f (hash p raw),
          g,
          end_family,
          revoke_family_lem p c.tenant_id s w1 f r.family_id,
        )
        (refl, family-AllRevoked p s w1 r.family_id)
