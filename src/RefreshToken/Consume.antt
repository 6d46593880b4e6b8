-- ===== src/RefreshToken/Consume.antt =====
-- What a successful `consume` has found and done.
use hotel_crm.Prelude.{
  ℕ, ◌<◌, ◌≡◌, refl, sym, ◌∙◌, ap, subst, String, Bool, true, false, Option, none, some, List, ◌&&◌,
  arith, str_eq, str_eq-true, str_eq_refl, All-of_at, Memᴰ, Memᴰ-change, count-pos, inl, inr,
  change, if◌then◌else◌, Bool-cases, Option-cases,
}
use hotel_crm.Schema.{TokenRow}
use hotel_crm.Platform.{Platform, World}
use hotel_crm.Platform.Results.{ok, >>=-ok}
use hotel_crm.Platform.JsonWebToken.{Claims}
use hotel_crm.Tenant.{setting_of, with_tenant-ok}
use hotel_crm.RefreshToken.Repository.{
  StoredRefreshToken, ConsumedRefreshToken, stored_of, policy, revoke_at, is_live, claimable,
  has_hash, claim, stamp, find_by_hash,
}
use hotel_crm.RefreshToken.Repository
use hotel_crm.RefreshToken.Service.{
  consume, verify, unexpired, settle, hash, or_invalid, try_verify,
}
use hotel_crm.RefreshToken.Effects.{token_rows}
use hotel_crm.RefreshToken.Unique.{Unique, change-Unique, Unique-id, Unique-hash}
use hotel_crm.RefreshToken.Revoked.{AllRevoked}

-- A row that a use of a token rests on, before and after it.
pub record IsUse (hash : String) (now : ℕ) (c : ConsumedRefreshToken) (before after : List TokenRow)
    : Type 0 where
  pub row : TokenRow
  pub listed : Memᴰ row before
  pub hashed : row.token_hash ≡ hash
  pub was_live : is_live row ≡ true
  pub unexpired_at : now < row.expires_at
  pub user : c.user_id ≡ row.user_id
  pub family : c.family_id ≡ row.family_id
  pub revoked : AllRevoked (has_hash hash) after
  pub distinct : Unique after

revoked_or_other :
    (s : Option String) (r x y : TokenRow) (at : ℕ)
    → y ≡ (if policy s x && claimable r.id x then revoke_at at x else x)
    → policy s r ≡ true
    → (x.token_hash ≡ r.token_hash → x ≡ r)
    → (has_hash r.token_hash y && is_live y) ≡ false
revoked_or_other s r x y at e a one = elim (Bool-cases (str_eq x.token_hash r.token_hash)) [
  | inl c ↦ rw (e, one (str_eq-true _ _ c), a, str_eq_refl r.id) (ground arith)
  | inr c ↦ rw e (ground arith)
]

-- Revoking the rows with an id revokes those with the hash of that row.
change-AllRevoked :
    (xs : List TokenRow) (r : TokenRow) (s : Option String) (at : ℕ)
    → Unique xs
    → Memᴰ r xs
    → policy s r ≡ true
    → AllRevoked
        (has_hash r.token_hash)
        (change (λ x. policy s x && claimable r.id x) (revoke_at at) xs)
change-AllRevoked xs r s at u m a = All-of_at _ _ λ y n.
    let (x, k, e) = Memᴰ-change _ (revoke_at at) xs n in
    revoked_or_other s r x y at e a (Unique-hash xs x r u k m)

IsUse-of_row :
    (hash : String) (now at : ℕ) (xs ys : List TokenRow) (r x : TokenRow)
    (stored : StoredRefreshToken) (s : Option String) (c : ConsumedRefreshToken)
    → Unique xs
    → Memᴰ r xs
    → Memᴰ x xs
    → r.token_hash ≡ hash
    → stored ≡ stored_of r
    → (policy s x && claimable stored.id x) ≡ true
    → now < stored.expires_at
    → ys ≡ change (λ y. policy s y && claimable stored.id y) (revoke_at at) xs
    → c.user_id ≡ stored.user_id
    → c.family_id ≡ stored.family_id
    → IsUse hash now c xs ys
IsUse-of_row hash now at xs ys r x stored s c u m n hashed from k time changed same_user
      same_family =
    let same_id : x.id ≡ r.id = str_eq-true x.id stored.id (ground arith) ∙ ap (λ t. t.id) from in
    let one : x ≡ r = Unique-id xs x r u n m same_id in
    let k' : (policy s r && claimable stored.id r) ≡ true = rw one at k in
    record {
      row = r;
      listed = m;
      hashed = hashed;
      was_live = ground arith;
      unexpired_at = rw from at time;
      user = same_user ∙ ap (λ t. t.user_id) from;
      family = same_family ∙ ap (λ t. t.family_id) from;
      revoked = rw (changed, from, ← hashed) (change-AllRevoked xs r s at u m (ground arith));
      distinct = rw changed (change-Unique _ at xs u);
    }

module _ {U T R K : Type 0} (p : Platform U T R K) where
  -- A successful claim stamps a live row with the id, at the time that it reads.
  pub claim-true :
      (tenant id : String) (w w' : World U T R)
      → claim p tenant id w ≡ (ok true, w')
      → (s : Option String) × (r : TokenRow) × (setting_of p tenant ≡ ok s)
        × Memᴰ r (token_rows p w)
        × (policy s r && claimable id r ≡ true)
        × (token_rows p w'
            ≡ change
                (λ r. policy s r && claimable id r)
                (revoke_at (p.clock w.reads))
                (token_rows p w))
  unfolding claim stamp
  claim-true tenant id w w' h =
      let (s, e, f) = with_tenant-ok p tenant _ w w' true h in
      let counted =
        p.tokens.count-update_many (policy s) (claimable id) (revoke_at (p.clock w.reads)) w.tokens
          (λ r. refl) in
      let changed =
        p.tokens.rows-update_many (policy s) (claimable id) (revoke_at (p.clock w.reads)) w.tokens
          (λ r. refl) in
      let (r, m, c) =
        count-pos (λ r. policy s r && claimable id r) (token_rows p w)
          (ground (arith, counted, f)) in
      (s, r, e, m, c, sym (ap (λ o. token_rows p o.1) f) ∙ changed)

  -- The stored token behind a hash.
  pub find_by_hash-some :
      (tenant hash : String) (w w' : World U T R) (stored : StoredRefreshToken)
      → find_by_hash p tenant hash w ≡ (ok (some stored), w')
      → (r : TokenRow) × Memᴰ r (token_rows p w)
        × (r.token_hash ≡ hash)
        × (stored ≡ stored_of r)
        × (w' ≡ w)
  unfolding find_by_hash
  find_by_hash-some tenant hash w w' stored h =
      let (s, e, f) = with_tenant-ok p tenant _ w w' (some stored) h in
      elim (Option-cases (p.tokens.find_first (policy s) (has_hash hash) w.tokens)) [
        | inl g ↦ absurd (ground (arith, f, g))
        | inr (r, g) ↦
            let (m, a, b) = p.tokens.find_first-some (policy s) (has_hash hash) w.tokens r g in
            (r, m, str_eq-true r.token_hash hash b, ground (arith, f, g), sym (ap (λ o. o.1) f))
      ]

  verify-tokens :
      (raw : K) (w w' : World U T R) (c : Claims)
      → verify p raw w ≡ (ok c, w')
      → w'.tokens ≡ w.tokens
  unfolding verify or_invalid try_verify
  verify-tokens raw w w' c h = ground arith

  unexpired-ok :
      (found : Option StoredRefreshToken) (w w' : World U T R) (stored : StoredRefreshToken)
      → unexpired p found w ≡ (ok stored, w')
      → (found ≡ some stored) × (p.clock w.reads < stored.expires_at) × (w'.tokens ≡ w.tokens)
  unfolding unexpired
  unexpired-ok none w w' stored h = ground arith
  unexpired-ok (some found) w w' stored h = ground arith

  settle-ok :
      (tenant : String) (stored : StoredRefreshToken) (claimed : Bool) (w w' : World U T R)
      (c : ConsumedRefreshToken)
      → settle p tenant stored claimed w ≡ (ok c, w')
      → (claimed ≡ true)
        × (c.user_id ≡ stored.user_id)
        × (c.family_id ≡ stored.family_id)
        × (w' ≡ w)
  unfolding settle
  settle-ok tenant stored true w w' c h = ground arith
  settle-ok tenant stored false w w' c h =
      let (a, v, e, f) = >>=-ok (Repository.revoke_family p tenant stored.family_id) _ w w' c h in
      ground (arith, f)

  IsUse-of_parts :
      (raw : K) (tenant : String) (found : Option StoredRefreshToken) (stored : StoredRefreshToken)
      (claimed : Bool) (w w1 w2 w3 w4 w' : World U T R) (c : ConsumedRefreshToken)
      → Unique (token_rows p w)
      → w1.tokens ≡ w.tokens
      → find_by_hash p tenant (hash p raw) w1 ≡ (ok found, w2)
      → unexpired p found w2 ≡ (ok stored, w3)
      → claim p tenant stored.id w3 ≡ (ok claimed, w4)
      → settle p tenant stored claimed w4 ≡ (ok c, w')
      → (at : ℕ) × IsUse (hash p raw) at c (token_rows p w) (token_rows p w')
  IsUse-of_parts raw tenant found stored claimed w w1 w2 w3 w4 w' c u t1 e2 e3 e4 e5 =
      let (f, time, t3) = unexpired-ok found w2 w3 stored e3 in
      let (taken, same_user, same_family, t5) = settle-ok tenant stored claimed w4 w' c e5 in
      let (r, m, hashed, from, t2) =
        find_by_hash-some tenant (hash p raw) w1 w2 stored (e2 ∙ ap (λ o. (ok o, w2)) f) in
      let (s, x, e, n, k, changed) =
        claim-true tenant stored.id w3 w4 (e4 ∙ ap (λ b. (ok b, w4)) taken) in
      let same : w3.tokens ≡ w.tokens = t3 ∙ (ap (λ v. v.tokens) t2 ∙ t1) in
      let rows : token_rows p w3 ≡ token_rows p w = ap p.tokens.rows same in
      (
        p.clock w2.reads,
        IsUse-of_row (hash p raw) (p.clock w2.reads) (p.clock w3.reads) (token_rows p w)
            (token_rows p w') r x stored s c u (subst (λ t. Memᴰ r (p.tokens.rows t)) t1 m)
            (subst (Memᴰ x) rows n) hashed from k time
            (ap (token_rows p) t5 ∙ (changed ∙ ap (change _ (revoke_at (p.clock w3.reads))) rows))
            same_user same_family,
      )

  -- If `consume` succeeds where rows have unique ids and hashes, there was a live row with the hash
  -- of the token that had not expired, the result names its user and family, and afterwards no row
  -- with that hash is live and the rows have unique ids and hashes.
  pub consume-IsUse :
      (raw : K) (w w' : World U T R) (c : ConsumedRefreshToken)
      → Unique (token_rows p w)
      → consume p raw w ≡ (ok c, w')
      → (at : ℕ) × IsUse (hash p raw) at c (token_rows p w) (token_rows p w')
  unfolding consume
  consume-IsUse raw w w' c u h =
      let (payload, w1, e1, h1) = >>=-ok (verify p raw) _ w w' c h in
      let (found, w2, e2, h2) =
        >>=-ok (find_by_hash p payload.tenant_id (hash p raw)) _ w1 w' c h1 in
      let (stored, w3, e3, h3) = >>=-ok (unexpired p found) _ w2 w' c h2 in
      let (claimed, w4, e4, h4) = >>=-ok (claim p payload.tenant_id stored.id) _ w3 w' c h3 in
      IsUse-of_parts raw payload.tenant_id found stored claimed w w1 w2 w3 w4 w' c u
        (verify-tokens raw w w1 payload e1) e2 e3 e4 h4
