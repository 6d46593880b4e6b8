-- ===== src/RefreshToken/LogOut.antt =====
-- A log-out ends the tokens of the session.
use hotel_crm.Prelude.{
  ℕ, ◌+◌, ◌≡◌, refl, String, true, false, Option, some, ◌&&◌, arith, str_eq, str_eq-true,
  str_eq_refl, All-of_at, Memᴰ, Memᴰ-change, Bool-cases, inl, inr, change, if◌then◌else◌,
}
use hotel_crm.Schema.{TokenRow}
use hotel_crm.Platform.{Platform, World}
use hotel_crm.Platform.Results.{ok}
use hotel_crm.Platform.JsonWebToken.{Claims}
use hotel_crm.Tenant.{setting_of}
use hotel_crm.RefreshToken.Repository.{policy, revoke_at, is_live, has_hash, live_in_family}
use hotel_crm.RefreshToken.Service.{revoke_session, try_verify, end_session, end_family, hash}
use hotel_crm.RefreshToken.Effects.{token_rows}
use hotel_crm.RefreshToken.Steps.{find_by_hash_lem, revoke_family_lem}
use hotel_crm.RefreshToken.Unique.{Unique, Unique-hash}
use hotel_crm.RefreshToken.Revoked.{AllRevoked}
use hotel_crm.RefreshToken.Reuse.{verified}

ended_or_other :
    (s : Option String) (family_id : String) (r x y : TokenRow) (at : ℕ)
    → y ≡ (if policy s x && live_in_family family_id x then revoke_at at x else x)
    → policy s r ≡ true
    → r.family_id ≡ family_id
    → (x.token_hash ≡ r.token_hash → x ≡ r)
    → (has_hash r.token_hash y && is_live y) ≡ false
ended_or_other s family_id r x y at e a same one =
    elim (Bool-cases (str_eq x.token_hash r.token_hash)) [
      | inl c ↦ rw (e, one (str_eq-true _ _ c), a, same, str_eq_refl family_id) (ground arith)
      | inr c ↦ rw e (ground arith)
    ]

module _ {U T R K : Type 0} (p : Platform U T R K) (raw : K) (w : World U T R) (c : Claims)
    (s : Option String) (r : TokenRow) (e : verified p raw w ≡ some c)
    (f : setting_of p c.tenant_id ≡ ok s)
    (g : p.tokens.find_first (policy s) (has_hash (hash p raw)) w.tokens ≡ some r) where
  revoke_session-rows :
      token_rows p (revoke_session p raw w).1
      ≡ change
          (λ x. policy s x && live_in_family r.family_id x)
          (revoke_at (p.clock (w.reads + 1)))
          (token_rows p w)
  unfolding revoke_session try_verify
  revoke_session-rows =
      let w1 : World U T R = record w { reads = w.reads + 1 } in
      rw
        (
          e,
          end_session,
          find_by_hash_lem p c.tenant_id s w1 f (hash p raw),
          g,
          end_family,
          revoke_family_lem p c.tenant_id s w1 f r.family_id,
        )
        (p.tokens.rows-update_many (policy s) (live_in_family r.family_id)
          (revoke_at (p.clock w1.reads)) w.tokens (λ x. refl))

  -- After it no row with the hash of a token of the family is live, if hashes are unique.
  pub revoke_session-Ended :
      (other : TokenRow)
      → Unique (token_rows p w)
      → Memᴰ other (token_rows p w)
      → policy s other ≡ true
      → other.family_id ≡ r.family_id
      → AllRevoked (has_hash other.token_hash) (token_rows p (revoke_session p raw w).1)
  revoke_session-Ended other u m a same = rw revoke_session-rows (
      All-of_at _ _ λ y n.
        let (x, k, h) = Memᴰ-change _ (revoke_at (p.clock (w.reads + 1))) (token_rows p w) n in
        ended_or_other s r.family_id other x y _ h a same
          (Unique-hash (token_rows p w) x other u k m))
