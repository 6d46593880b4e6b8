-- ===== src/RefreshToken/Issue.antt =====
-- Issuing a refresh token, and using it.
use hotel_crm.Prelude.{
  ℕ, zero, suc, ◌+◌, ◌*◌, ◌<◌, ◌≡◌, refl, sym, ap, ◌∙◌, String, Option, none, some, arith,
  Option-cases, inl, inr,
}
use hotel_crm.Schema.{TokenRow, token_conflict}
use hotel_crm.Platform.{Platform, World}
use hotel_crm.Platform.Results.{ok, err, pure, ◌>>◌}
use hotel_crm.Tenant.{setting_of}
use hotel_crm.RefreshToken.Repository.{create, NewRefreshToken, new_row, expired_of, policy}
use hotel_crm.RefreshToken.Service.{
  TokenSubject, issue, hash, sign_refresh, refresh_claims, expires_at_of, milliseconds,
}
use hotel_crm.RefreshToken.Steps.{create_lem, create_refused, delete_expired_for_user_lem}

module _ {U T R K : Type 0} (p : Platform U T R K) where
  milliseconds_lem :
      (n : ℕ) (w : World U T R) → 0 < n → milliseconds p (some n) w ≡ (ok (n * 1000), w)
  unfolding milliseconds
  milliseconds_lem zero w h = absurd (omega arith)
  milliseconds_lem (suc n) w h = refl

module _ {U T R K : Type 0} (p : Platform U T R K) (subject : TokenSubject) (family_id : String)
    (w : World U T R) where
  -- The token that `issue` signs, when it expires, and the row that it stores.
  abbrev pub new_token : K
  new_token = sign_refresh p (p.clock w.reads) (refresh_claims subject (p.random_uuid w.drawn))

  abbrev pub expiry_of : ℕ
  expiry_of = p.jwt.expiry p.env.jwt_refresh_expires_in (p.clock w.reads) * 1000

  abbrev pub stored_row : TokenRow
  stored_row =
      new_row subject.tenant_id (p.random_uuid (w.drawn + 1)) (p.clock (w.reads + 1 + 1)) (record {
        user_id = subject.id;
        family_id = family_id;
        token_hash = hash p new_token;
        expires_at = expiry_of;
      })

  -- The tokens of the user that have expired go first.
  abbrev pub pruned : Option String → T
  pruned s =
      p.tokens.delete_many (policy s) (expired_of subject.id (p.clock (w.reads + 1))) w.tokens

  -- The world in which `issue` inserts the row, and what it inserts.
  abbrev pruned_world : Option String → World U T R
  pruned_world s = record w { tokens = pruned s; reads = w.reads + 1 + 1; drawn = w.drawn + 1 }

  abbrev new_record : NewRefreshToken
  new_record = record {
    user_id = subject.id;
    family_id = family_id;
    token_hash = hash p new_token;
    expires_at = expiry_of;
  }

  issue-create :
      (s : Option String)
      → setting_of p subject.tenant_id ≡ ok s
      → issue p subject family_id w
        ≡ (create p subject.tenant_id new_record >> pure new_token) (pruned_world s)
  unfolding issue expires_at_of
  issue-create s e = rw (
    delete_expired_for_user_lem p subject.tenant_id s
        (record w { reads = w.reads + 1; drawn = w.drawn + 1 }) e subject.id,
    decoded,
    milliseconds_lem p (p.jwt.expiry p.env.jwt_refresh_expires_in (p.clock w.reads)) _
        (p.jwt.expiry_pos _ _),
  )
    where
      decoded :
          p.jwt.decode_exp new_token
          ≡ some (p.jwt.expiry p.env.jwt_refresh_expires_in (p.clock w.reads))
      decoded = unfold sign_refresh in p.jwt.decode_exp-sign _ _ _ _

  -- `issue` succeeds where the insert does.
  pub issue_lem :
      (s : Option String) (t : T)
      → setting_of p subject.tenant_id ≡ ok s
      → p.to_uuid subject.tenant_id ≡ ok subject.tenant_id
      → p.tokens.create (policy s) token_conflict stored_row (pruned s) ≡ some t
      → issue p subject family_id w ≡ (
        ok new_token,
        record w { tokens = t; reads = w.reads + 1 + 1 + 1; drawn = w.drawn + 1 + 1 },
      )
  issue_lem s t e f g =
      issue-create s e
      ∙ rw (create_lem p subject.tenant_id s (pruned_world s) e new_record subject.tenant_id t f g)

  issue_refused :
      (s : Option String)
      → setting_of p subject.tenant_id ≡ ok s
      → p.to_uuid subject.tenant_id ≡ ok subject.tenant_id
      → p.tokens.create (policy s) token_conflict stored_row (pruned s) ≡ none
      → (issue p subject family_id w).0
        ≡ err (p.tokens.refusal (policy s) token_conflict stored_row (pruned s))
  issue_refused s e f g =
      let refused =
        create_refused p subject.tenant_id s (pruned_world s) e new_record subject.tenant_id f g in
      ap (λ o. o.0) (issue-create s e) ∙ ground (arith, refused)

  -- What a successful `issue` has stored.
  pub issue-ok :
      (s : Option String) (token : K) (w' : World U T R)
      → setting_of p subject.tenant_id ≡ ok s
      → p.to_uuid subject.tenant_id ≡ ok subject.tenant_id
      → issue p subject family_id w ≡ (ok token, w')
      → (token ≡ new_token)
        × (p.tokens.create (policy s) token_conflict stored_row (pruned s) ≡ some w'.tokens)
  issue-ok s token w' e f h =
      elim (Option-cases (p.tokens.create (policy s) token_conflict stored_row (pruned s))) [
        | inl g ↦ absurd (cc (ap (λ o. o.0) h, issue_refused s e f g))
        | inr (t, g) ↦
            let both = sym h ∙ issue_lem s t e f g in
            (ground (arith, both), g ∙ ap (λ o. some o.1.tokens) (sym both))
      ]
