-- ===== src/RefreshToken/Statements.antt =====
-- What each transaction of the repository does to the rows of `refresh_tokens`, row by row.
use hotel_crm.Prelude.{
  ℕ, ◌<◌, ◌≡◌, ◌≢◌, refl, ◌⊎◌, inl, inr, String, Bool, true, false, not, Option, none, some, List,
  [], ◌∷◌, ◌&&◌, arith, str_eq-true, str_eq_refl, All, All-imp, keep, change, Bool-cases,
  Option-cases,
}
use hotel_crm.Schema.{TokenRow, token_conflict}
use hotel_crm.Platform.{Platform, World}
use hotel_crm.Platform.Results.{Exception, ok, err}
use hotel_crm.Tenant.{with_tenant, setting_of, setting_of_uuid}
use hotel_crm.RefreshToken.Repository.{
  NewRefreshToken, policy, claimable, live_in_family, expired_of, is_live, revoke_at, insert,
  create, find_by_hash,
}
use hotel_crm.RefreshToken.Steps.{claim_lem, revoke_family_lem, delete_expired_for_user_lem}
use hotel_crm.RefreshToken.Effects.{
  Transaction, creates, finds, claims, revokes, deletes, tenant_of, token_rows, step,
}

module _ {A : Type 0} (Hit : A → Type 0) where
  -- The rows that are hit are changed, the others stay, and all keep their places.
  abbrev pub Changed : (A → A) → List A → List A → Type 0
  Changed f [] ys = ys ≡ []
  Changed f (x ∷ xs) [] = ⊥
  Changed f (x ∷ xs) (y ∷ ys) = ((Hit x × (y ≡ f x)) ⊎ (¬ Hit x × (y ≡ x))) × Changed f xs ys

  -- The rows that are hit are gone, and the others stay in their order.
  abbrev pub Thinned : List A → List A → Type 0
  Thinned [] ys = ys ≡ []
  Thinned (x ∷ xs) ys =
      (Hit x × Thinned xs ys) ⊎ (¬ Hit x × ((zs : List A) × (ys ≡ x ∷ zs) × Thinned xs zs))

  module _ (q : A → Bool) (hit : (x : A) → q x ≡ true → Hit x)
      (missed : (x : A) → q x ≡ false → ¬ Hit x) where
    change-Changed : (f : A → A) (xs : List A) → Changed f xs (change q f xs)
    change-Changed f [] = refl
    change-Changed f (x ∷ xs) = elim (Bool-cases (q x)) [
      | inl e ↦ rw e (inl (hit x e, refl), change-Changed f xs)
      | inr e ↦ rw e (inr (missed x e, refl), change-Changed f xs)
    ]

    keep-Thinned : (xs : List A) → Thinned xs (keep (λ x. not (q x)) xs)
    keep-Thinned [] = refl
    keep-Thinned (x ∷ xs) = elim (Bool-cases (q x)) [
      | inl e ↦ rw e (inl (hit x e, keep-Thinned xs))
      | inr e ↦ rw e (inr (missed x e, (keep (λ y. not (q y)) xs, refl, keep-Thinned xs)))
    ]

-- A row of the tenant with this id that is not revoked; one of this family; and one of this user
-- that expired before a time.
abbrev pub IsClaimed : String → String → TokenRow → Type 0
IsClaimed tenant id x = (x.tenant_id ≡ tenant) × (x.id ≡ id) × (x.revoked_at ≡ none)

abbrev pub IsLiveIn : String → String → TokenRow → Type 0
IsLiveIn tenant family x = (x.tenant_id ≡ tenant) × (x.family_id ≡ family) × (x.revoked_at ≡ none)

abbrev pub IsExpiredOf : String → String → ℕ → TokenRow → Type 0
IsExpiredOf tenant user at x = (x.tenant_id ≡ tenant) × (x.user_id ≡ user) × (x.expires_at < at)

unrevoked : (x : TokenRow) → is_live x ≡ true → x.revoked_at ≡ none
unrevoked x h = ground arith

module _ (tenant key : String) (x : TokenRow) where
  claimable-hit : (policy (some tenant) x && claimable key x) ≡ true → IsClaimed tenant key x
  claimable-hit h = (
    str_eq-true x.tenant_id tenant (ground arith),
    str_eq-true x.id key (ground arith),
    unrevoked x (ground arith),
  )

  claimable-missed : (policy (some tenant) x && claimable key x) ≡ false → ¬ IsClaimed tenant key x
  claimable-missed h (a, b, c) = ground (arith, h, a, b, c, str_eq_refl tenant, str_eq_refl key)

  pub live-hit : (policy (some tenant) x && live_in_family key x) ≡ true → IsLiveIn tenant key x
  live-hit h = (
    str_eq-true x.tenant_id tenant (ground arith),
    str_eq-true x.family_id key (ground arith),
    unrevoked x (ground arith),
  )

  pub live-missed :
      (policy (some tenant) x && live_in_family key x) ≡ false → ¬ IsLiveIn tenant key x
  live-missed h (a, b, c) = ground (arith, h, a, b, c, str_eq_refl tenant, str_eq_refl key)

  expired-hit :
      (at : ℕ)
      → (policy (some tenant) x && expired_of key at x) ≡ true
      → IsExpiredOf tenant key at x
  expired-hit at h = (
    str_eq-true x.tenant_id tenant (ground arith),
    str_eq-true x.user_id key (ground arith),
    ground arith,
  )

  expired-missed :
      (at : ℕ)
      → (policy (some tenant) x && expired_of key at x) ≡ false
      → ¬ IsExpiredOf tenant key at x
  expired-missed at h (a, b, c) = ground (arith, h, a, b, c, str_eq_refl tenant, str_eq_refl key)

module _ {U T R K : Type 0} (p : Platform U T R K) where
  -- The row that a token is stored as.
  abbrev pub stored : NewRefreshToken → String → World U T R → TokenRow
  stored new tenant w = record {
    id = p.random_uuid w.drawn;
    tenant_id = tenant;
    user_id = new.user_id;
    family_id = new.family_id;
    token_hash = new.token_hash;
    expires_at = new.expires_at;
    revoked_at = none;
    created_at = p.clock w.reads;
  }

  abbrev pub revoked : World U T R → TokenRow → TokenRow
  revoked w x = record x { revoked_at = some (p.clock w.reads) }

  -- What a transaction of a tenant does to the rows.
  abbrev pub Does : Transaction → String → World U T R → World U T R → Type 0
  Does (creates t new) tenant v w =
      ((e : Exception) × ((create p t new v).0 ≡ err e) × (token_rows p w ≡ token_rows p v))
      ⊎ (((create p t new v).0 ≡ ok tt)
          × (token_rows p w ≡ stored new tenant v ∷ token_rows p v)
          × All (λ x. (x.id ≢ p.random_uuid v.drawn) × (x.token_hash ≢ new.token_hash))
              (token_rows p v))
  Does (finds t hash) tenant v w = token_rows p w ≡ token_rows p v
  Does (claims t id) tenant v w =
      Changed (IsClaimed tenant id) (revoked v) (token_rows p v) (token_rows p w)
  Does (revokes t family) tenant v w =
      Changed (IsLiveIn tenant family) (revoked v) (token_rows p v) (token_rows p w)
  Does (deletes t user) tenant v w =
      Thinned (IsExpiredOf tenant user (p.clock v.reads)) (token_rows p v) (token_rows p w)

  apart :
      (r x : TokenRow) → token_conflict r x ≡ false → (x.id ≢ r.id) × (x.token_hash ≢ r.token_hash)
  apart r x h = (
    λ e. ground (arith, h, e, str_eq_refl r.id),
    λ e. ground (arith, h, e, str_eq_refl r.token_hash),
  )

  module _ (w : World U T R) where
    pub stamped-Changed :
        {Hit : TokenRow → Type 0} (s : Option String) (q : TokenRow → Bool)
        → ((x : TokenRow) → (policy s x && q x) ≡ true → Hit x)
        → ((x : TokenRow) → (policy s x && q x) ≡ false → ¬ Hit x)
        → Changed Hit (revoked w) (token_rows p w) (
            p.tokens.rows
              (p.tokens.update_many (policy s) q (revoke_at (p.clock w.reads)) w.tokens).0)
    stamped-Changed s q hit missed =
        rw
          (p.tokens.rows-update_many (policy s) q (revoke_at (p.clock w.reads)) w.tokens
            (λ r. refl))
          (change-Changed _ (λ x. policy s x && q x) hit missed _ (token_rows p w))

    creates-Does :
        (t u : String) (new : NewRefreshToken)
        → setting_of p t ≡ ok (some u)
        → p.to_uuid t ≡ ok u
        → Does (creates t new) u w (step p (creates t new) w)
    unfolding step create insert with_tenant
    creates-Does t u new e f =
        elim (Option-cases
          (p.tokens.create (policy (some u)) token_conflict (stored new u w) w.tokens)) [
            | inl g ↦ rw (step, e, f, g, insert) (inl (_, refl, refl))
            | inr (s, g) ↦
                let (rows, _, distinct) =
                  p.tokens.rows-create (policy (some u)) token_conflict (stored new u w) w.tokens s
                    g in
                rw (step, e, f, g, insert)
                  (inr (refl, rows, All-imp _ _ (token_rows p w) (apart (stored new u w)) distinct))
          ]

    -- A transaction under a tenant's uuid does to the rows exactly this. A look-up does nothing.
    -- An insert adds one row, with the next UUID, the tenant, the given user, family, hash and
    -- expiry, not revoked, where no other row has its id or its hash; or it fails and adds none. A
    -- claim stamps the unrevoked rows of the tenant with the given id, and a revocation those of
    -- the given family, with the time. A deletion removes the rows of the tenant and the given user
    -- that have expired. All other rows stay as they are and where they are.
    pub step-Does :
        (x : Transaction) (u : String)
        → tenant_of x ≢ ""
        → p.to_uuid (tenant_of x) ≡ ok u
        → Does x u w (step p x w)
    unfolding step find_by_hash with_tenant
    step-Does (creates t new) u n f = creates-Does t u new (setting_of_uuid p t u n f) f
    step-Does (finds t hash) u n f = rw (step, setting_of_uuid p t u n f) refl
    step-Does (claims t id) u n f =
        rw (step, claim_lem p t (some u) w (setting_of_uuid p t u n f) id)
          (stamped-Changed (some u) (claimable id) (claimable-hit u id) (claimable-missed u id))
    step-Does (revokes t family) u n f =
        rw (step, revoke_family_lem p t (some u) w (setting_of_uuid p t u n f) family)
          (stamped-Changed (some u) (live_in_family family) (live-hit u family)
            (live-missed u family))
    step-Does (deletes t user) u n f =
        let at = p.clock w.reads in
        rw
          (
            step,
            delete_expired_for_user_lem p t (some u) w (setting_of_uuid p t u n f) user,
            p.tokens.rows-delete_many (policy (some u)) (expired_of user at) w.tokens,
          )
          (keep-Thinned _ (λ r. policy (some u) r && expired_of user at r)
            (λ r. expired-hit u user r at) (λ r. expired-missed u user r at) (token_rows p w))
