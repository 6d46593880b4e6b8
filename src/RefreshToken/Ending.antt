-- ===== src/RefreshToken/Ending.antt =====
-- A log-out, whatever token it brings.
use hotel_crm.Prelude.{
  ◌+◌, ◌≡◌, ◌≢◌, refl, ◌⊎◌, inl, inr, String, ◌&&◌, false, none, some, arith, str_eq-true,
  str_eq_refl, Memᴰ, All, All-imp, Option-cases,
}
use hotel_crm.Schema.{TokenRow}
use hotel_crm.Platform.{Platform, World}
use hotel_crm.Platform.Results.{ok}
use hotel_crm.Platform.JsonWebToken.{Claims}
use hotel_crm.Tenant.{setting_of_uuid}
use hotel_crm.RefreshToken.Repository.{policy, has_hash, live_in_family}
use hotel_crm.RefreshToken.Service.{revoke_session, try_verify, end_session, end_family, hash}
use hotel_crm.RefreshToken.Effects.{token_rows}
use hotel_crm.RefreshToken.Steps.{find_by_hash_lem, revoke_family_lem}
use hotel_crm.RefreshToken.Reuse.{verified}
use hotel_crm.RefreshToken.Statements.{
  Changed, IsLiveIn, revoked, stamped-Changed, live-hit, live-missed,
}

module _ {U T R K : Type 0} (p : Platform U T R K) (raw : K) (w : World U T R) where
  -- A row of the tenant with the hash of the token.
  abbrev pub IsItsRow : String → TokenRow → Type 0
  IsItsRow tenant x = (x.tenant_id ≡ tenant) × (x.token_hash ≡ hash p raw)

  -- What a log-out does: nothing where the token does not verify or has no row, and otherwise it
  -- revokes what is live in the family of its row.
  abbrev pub Ends : World U T R → Type 0
  Ends w' =
      ((verified p raw w ≡ none) × (token_rows p w' ≡ token_rows p w))
      ⊎ ((c : Claims) × (tenant : String) × (verified p raw w ≡ some c)
          × (p.to_uuid c.tenant_id ≡ ok tenant)
          × ((All (λ x. ¬ IsItsRow tenant x) (token_rows p w) × (token_rows p w' ≡ token_rows p w))
              ⊎ ((r : TokenRow) × Memᴰ r (token_rows p w)
                  × IsItsRow tenant r
                  × Changed (IsLiveIn tenant r.family_id)
                      (revoked p (record w { reads = w.reads + 1 })) (token_rows p w)
                      (token_rows p w'))))

  absent :
      (tenant : String) (x : TokenRow)
      → (policy (some tenant) x && has_hash (hash p raw) x) ≡ false
      → ¬ IsItsRow tenant x
  absent tenant x h (a, b) = ground (arith, h, a, b, str_eq_refl tenant, str_eq_refl (hash p raw))

  -- A log-out succeeds, whatever token it brings: of any kind, expired, forged or unknown. Where the
  -- token does not verify, or the tenant that it names has no row with its hash, no row changes.
  -- Otherwise it stamps the unrevoked rows of that tenant that have the family of such a row, and
  -- all other rows stay as they are. A token that verifies names a tenant by a uuid.
  pub revoke_session-Ends :
      ((c : Claims)
        → verified p raw w ≡ some c
        → (c.tenant_id ≢ "") × ((u : String) × (p.to_uuid c.tenant_id ≡ ok u)))
      → ((revoke_session p raw w).0 ≡ ok tt) × Ends (revoke_session p raw w).1
  unfolding revoke_session try_verify
  revoke_session-Ends named = elim (Option-cases (verified p raw w)) [
    | inl e ↦ rw (e, end_session) (refl, inl (refl, refl))
    | inr (c, e) ↦
        let (n, (u, f)) = named c e in
        let w1 : World U T R = record w { reads = w.reads + 1 } in
        let s = setting_of_uuid p c.tenant_id u n f in
        elim (Option-cases
          (p.tokens.find_first (policy (some u)) (has_hash (hash p raw)) w.tokens)) [
            | inl g ↦
                rw
                  (
                    e,
                    end_session,
                    find_by_hash_lem p c.tenant_id (some u) w1 s (hash p raw),
                    g,
                    end_family,
                  )
                  (
                    refl,
                    inr (
                      c,
                      u,
                      refl,
                      f,
                      inl (
                        All-imp _ _ (token_rows p w) (absent u) (
                            p.tokens.find_first-none (policy (some u)) (has_hash (hash p raw))
                              w.tokens g),
                        refl,
                      ),
                    ),
                  )
            | inr (r, g) ↦
                let (m, a, b) =
                  p.tokens.find_first-some (policy (some u)) (has_hash (hash p raw)) w.tokens r g in
                rw
                  (
                    e,
                    end_session,
                    find_by_hash_lem p c.tenant_id (some u) w1 s (hash p raw),
                    g,
                    end_family,
                    revoke_family_lem p c.tenant_id (some u) w1 s r.family_id,
                  )
                  (
                    refl,
                    inr (
                      c,
                      u,
                      refl,
                      f,
                      inr (
                        r,
                        m,
                        (str_eq-true _ _ a, str_eq-true _ _ b),
                        stamped-Changed p w1 (some u) (live_in_family r.family_id)
                            (live-hit u r.family_id) (live-missed u r.family_id),
                      ),
                    ),
                  )
          ]
  ]
