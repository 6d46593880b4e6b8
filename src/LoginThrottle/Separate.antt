-- ===== src/LoginThrottle/Separate.antt =====
-- The counters of different accounts.
use hotel_crm.Prelude.{
  ℕ, zero, suc, ◌<◌, ◌≡◌, ◌≢◌, refl, ap, ◌∙◌, ◌⊎◌, inl, inr, ltb, arith, str_eq_ne, Bool-cases,
  IsColonFree, colon-injective, append-cancel,
}
use hotel_crm.Platform.{Platform, World}
use hotel_crm.Platform.Results.{ok}
use hotel_crm.LoginThrottle.Counter.{LoginAttemptIdentity, key_for}
use hotel_crm.LoginThrottle.Service.{record_failure, reset}
use hotel_crm.LoginThrottle.Effects.{
  entry_of, incremented_entry, incremented_world, record_failure-below, record_failure-limit,
  record_failure-ok, entry-increment, entry-start_lockout, entry-reset,
}
use hotel_crm.LoginThrottle.Lockout.{failures}

module _ {U T R K : Type 0} (p : Platform U T R K) where
  -- The tenant and the address, in lower case, have no colon, as a uuid and the address of a user
  -- have none.
  abbrev pub HasPlainParts : LoginAttemptIdentity → Type 0
  HasPlainParts i = IsColonFree i.tenant_id × IsColonFree (p.lowercase i.email)

  -- Another tenant, another address but for the case of its letters, or another client.
  abbrev pub AreDifferent : LoginAttemptIdentity → LoginAttemptIdentity → Type 0
  AreDifferent i j =
      (i.tenant_id ≢ j.tenant_id) ⊎ ((p.lowercase i.email ≢ p.lowercase j.email) ⊎ (i.ip ≢ j.ip))

  key_for-different :
      (i j : LoginAttemptIdentity)
      → HasPlainParts i
      → HasPlainParts j
      → AreDifferent i j
      → key_for p i ≢ key_for p j
  unfolding key_for
  key_for-different i j (a, b) (c, d) other e =
      let (tenant, later) = colon-injective _ _ _ _ a c (append-cancel "login-attempts:" _ _ e) in
      let (email, ip) = colon-injective _ _ _ _ b d later in
      elim other [ inl h ↦ h tenant | inr (inl h) ↦ h email | inr (inr h) ↦ h ip ]

module _ {U T R K : Type 0} (p : Platform U T R K) (i : LoginAttemptIdentity) where
  record_failure-other :
      (j : LoginAttemptIdentity) (w : World U T R)
      → 0 < p.env.login_lockout_seconds
      → key_for p i ≢ key_for p j
      → (entry_of p (record_failure p i w).1 (key_for p j) ≡ entry_of p w (key_for p j))
        × (entry_of p (reset p i w).1 (key_for p j) ≡ entry_of p w (key_for p j))
  record_failure-other j w h other =
      let ne = str_eq_ne _ _ other in
      let kept : entry_of p (incremented_world p i w) (key_for p j) ≡ entry_of p w (key_for p j) =
        entry-increment p i w (key_for p j) h ∙ rw ne in
      (
        elim (Bool-cases (ltb (incremented_entry p i w).value p.env.login_max_attempts)) [
          | inl e ↦ rw (record_failure-below p i w (ground arith)) kept
          | inr e ↦
              rw (record_failure-limit p i w (ground arith))
                (cc (entry-start_lockout p i (incremented_world p i w) (key_for p j) h, ne, kept))
        ],
        entry-reset p i w (key_for p j) ∙ rw ne,
      )

  failures-kept :
      (j : LoginAttemptIdentity) (m : ℕ) (w : World U T R)
      → 0 < p.env.login_lockout_seconds
      → key_for p i ≢ key_for p j
      → entry_of p (failures p i m w).1 (key_for p j) ≡ entry_of p w (key_for p j)
  unfolding failures
  failures-kept j zero w h other = refl
  failures-kept j (suc m) w h other =
      let v = (record_failure p i w).1 in
      let pair : record_failure p i w ≡ (ok tt, v) = ap (λ o. (o, v)) (record_failure-ok p i w) in
      rw pair (failures-kept j m v h other ∙ (record_failure-other j w h other).0)

  -- Any number of failed logins of one account, the lockout included, and a reset of its counter
  -- leave the counter of another account as it is: the account of another tenant, of another
  -- address, the case of its letters aside, or tried by another client. The tenants and addresses
  -- have no colon, and the lockout time is positive.
  pub failures-other :
      (j : LoginAttemptIdentity) (m : ℕ) (w : World U T R)
      → 0 < p.env.login_lockout_seconds
      → HasPlainParts p i
      → HasPlainParts p j
      → AreDifferent p i j
      → (entry_of p (failures p i m w).1 (key_for p j) ≡ entry_of p w (key_for p j))
        × (entry_of p (reset p i w).1 (key_for p j) ≡ entry_of p w (key_for p j))
  failures-other j m w h a b c =
      let other = key_for-different p i j a b c in
      (failures-kept j m w h other, (record_failure-other j w h other).1)
