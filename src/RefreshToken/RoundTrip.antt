-- ===== src/RefreshToken/RoundTrip.antt =====
-- A token that was issued can be used.
use hotel_crm.Prelude.{
  ℕ, suc, ◌+◌, ◌<◌, ◌≡◌, ◌≢◌, refl, sym, ap, ◌∙◌, subst, String, true, false, Option, none, some,
  List, ◌∷◌, All, arith, str_eq_refl, str_eq-true, str_eq_comm, All-imp, count-eq-zero,
  Option-cases, inl, inr, Memᴰ, count,
}
use hotel_crm.Schema.{TokenRow, token_conflict}
use hotel_crm.Platform.{Platform, World}
use hotel_crm.Platform.Results.{ok}
use hotel_crm.Tenant.{setting_of_uuid}
use hotel_crm.RefreshToken.Repository.{stored_of, policy, revoke_at, claimable, has_hash}
use hotel_crm.RefreshToken.Service.{
  TokenSubject, issue, consume, settle, sign_refresh, refresh_claims, refresh_only,
}
use hotel_crm.RefreshToken.Effects.{token_rows}
use hotel_crm.RefreshToken.Unique.{Unique, Unique-hash, keep-Unique}
use hotel_crm.RefreshToken.Steps.{find_by_hash_lem, claim_lem}
use hotel_crm.RefreshToken.Reuse.{verified, verify_lem, unexpired_lem}
use hotel_crm.RefreshToken.Issue.{new_token, expiry_of, stored_row, pruned, issue-ok}

-- A row that stands first in a table with unique hashes is the one that a search for its hash
-- finds, and the only one that a claim of its id stamps.
module _ {U T R K : Type 0} (p : Platform U T R K) (s : Option String) (t : T) (row : TokenRow)
    (rest : List TokenRow) (rows : p.tokens.rows t ≡ row ∷ rest)
    (apart : All (λ x. token_conflict row x ≡ false) rest) (unique : Unique rest)
    (admitted : policy s row ≡ true) where
  find_first-row : p.tokens.find_first (policy s) (has_hash row.token_hash) t ≡ some row
  find_first-row =
      elim (Option-cases (p.tokens.find_first (policy s) (has_hash row.token_hash) t)) [
        | inl g ↦
            let missed = p.tokens.find_first-none (policy s) (has_hash row.token_hash) t g in
            absurd
              (ground (arith, (subst (All _) rows missed).0, admitted, str_eq_refl row.token_hash))
        | inr (r, g) ↦
            let (m, a, b) = p.tokens.find_first-some (policy s) (has_hash row.token_hash) t r g in
            let one =
              Unique-hash (row ∷ rest) r row (apart, unique) (subst (Memᴰ r) rows m)
                (Memᴰ.head refl) (str_eq-true _ _ b) in
            g ∙ ap some one
      ]

  count-row :
      (at : ℕ)
      → row.revoked_at ≡ none
      → (p.tokens.update_many (policy s) (claimable row.id) (revoke_at at) t).1 ≡ 1
  count-row at live =
      p.tokens.count-update_many (policy s) (claimable row.id) (revoke_at at) t (λ r. refl)
      ∙ (ap (count _) rows
          ∙ rw (admitted, str_eq_refl row.id, live)
              (ap suc (
                count-eq-zero _ rest
                  (All-imp _ _ rest (λ x h. ground (arith, str_eq_comm x.id row.id)) apart))))

module _ {U T R K : Type 0} (p : Platform U T R K) (subject : TokenSubject) (family_id : String)
    (w v : World U T R) where
  verified-new_token :
      p.clock v.reads < expiry_of p subject family_id w
      → verified p (new_token p subject family_id w) v
        ≡ some (refresh_claims subject (p.random_uuid w.drawn))
  unfolding sign_refresh
  verified-new_token h = ap refresh_only (p.jwt.verify-sign _ _ _ _ _ h)

module _ {U T R K : Type 0} (p : Platform U T R K) where
  -- A refresh token that `issue` returned can be consumed while its row is there and it has not
  -- expired: the result names the user, the tenant and the family that it was issued for. The
  -- tenant is a canonical `uuid`, and the rows had unique ids and hashes.
  pub consume-issue :
      (subject : TokenSubject) (family_id : String) (token : K) (w w' v : World U T R)
      → subject.tenant_id ≢ ""
      → p.to_uuid subject.tenant_id ≡ ok subject.tenant_id
      → Unique (token_rows p w)
      → issue p subject family_id w ≡ (ok token, w')
      → v.tokens ≡ w'.tokens
      → p.clock v.reads < expiry_of p subject family_id w
      → p.clock (v.reads + 1) < expiry_of p subject family_id w
      → (consume p token v).0
        ≡ ok (record { user_id = subject.id; tenant_id = subject.tenant_id; family_id = family_id })
  unfolding consume settle
  consume-issue subject family_id token w w' v named canonical u h same t1 t2 =
      let s : Option String = some subject.tenant_id in
      let e = setting_of_uuid p subject.tenant_id subject.tenant_id named canonical in
      let (is, made) = issue-ok p subject family_id w s token w' e canonical h in
      let row = stored_row p subject family_id w in
      let before = pruned p subject family_id w s in
      let (rows, admitted, apart) =
        p.tokens.rows-create (policy s) token_conflict row before w'.tokens made in
      let unique : Unique (p.tokens.rows before) =
        subst Unique (sym (p.tokens.rows-delete_many (policy s) _ w.tokens)) (keep-Unique _ _ u) in
      let rows' : token_rows p v ≡ row ∷ p.tokens.rows before = ap p.tokens.rows same ∙ rows in
      let v1 : World U T R = record v { reads = v.reads + 1 } in
      let v2 : World U T R = record v { reads = v.reads + 1 + 1 } in
      rw (
        is,
        verify_lem p (new_token p subject family_id w) v _
            (verified-new_token p subject family_id w v t1),
        find_by_hash_lem p subject.tenant_id s v1 e row.token_hash,
        find_first-row p s v.tokens row (p.tokens.rows before) rows' apart unique admitted,
        unexpired_lem p v1 (stored_of row) t2,
        claim_lem p subject.tenant_id s v2 e row.id,
        count-row p s v.tokens row (p.tokens.rows before) rows' apart unique admitted
            (p.clock v2.reads) refl,
      )
