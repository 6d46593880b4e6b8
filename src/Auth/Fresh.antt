-- ===== src/Auth/Fresh.antt =====
-- The two tokens of a log-in that succeeded are good.
use hotel_crm.Prelude.{
  ℕ, ◌+◌, ◌*◌, ◌<◌, ◌≡◌, ◌≢◌, sym, ap, ◌∙◌, subst, String, false, Option, none, some, arith,
  if◌then◌else◌, ◌==◌, str_eq-true, Bool-cases, inl, inr,
}
use hotel_crm.Schema.{UserRow}
use hotel_crm.Platform.{Platform, World, as_uuid}
use hotel_crm.Platform.Results.{ok, Action, pure, throw, prisma, ◌>>=◌, Outcome-cases, >>=-ok}
use hotel_crm.Tenant.{setting_of, rolled_back}
use hotel_crm.Users.Types.{public_user}
use hotel_crm.Users.Repository.{user_policy, has_id, logged_in, mark_logged_in, update_users}
use hotel_crm.Users.Rows.{resolve, with_current_tenant-ok}
use hotel_crm.RefreshToken.Service.{TokenSubject, start_family, issue, consume}
use hotel_crm.RefreshToken.Effects.{token_rows}
use hotel_crm.RefreshToken.Unique.{Unique}
use hotel_crm.RefreshToken.RoundTrip.{consume-issue}
use hotel_crm.LoginThrottle.Counter.{LoginAttemptIdentity, key_for, clear, delete}
use hotel_crm.LoginThrottle.Service.{reset}
use hotel_crm.Auth.Guards.{AuthenticatedUser, Route, Request, Passport, activate, validate}
use hotel_crm.Auth.Access.{IsPermitted, activate_total}
use hotel_crm.Auth.Sessions.{
  LoginDto, LoginResult, AuthenticatedUserProfile, TokenPair, identity_of, login, accept,
  profile_of, issue_session, sign_access_token, subject_of, access_claims,
}
use hotel_crm.Auth.Credentials.{login-ok, login-accept}

module _ {U T R K : Type 0} (p : Platform U T R K) where
  abbrev marking : Option String → String → Action (World U T R) (Unit {0})
  marking s id = do
    key ← as_uuid p id
    count ← update_users p s (has_id key) logged_in
    if count == 0 then throw (prisma "P2025") else pure tt

  marking-ok :
      (s : Option String) (id : String) (v v' : World U T R)
      → rolled_back v (marking s id v) ≡ (ok tt, v')
      → (v'.tokens ≡ v.tokens) × (v'.reads ≡ v.reads + 1)
  unfolding update_users
  marking-ok s id v v' h = elim (Outcome-cases (p.to_uuid id)) [
    | inr (x, f) ↦ absurd (ground (arith, h, f))
    | inl (key, f) ↦
        elim (Bool-cases (
          (p.users.update_many (user_policy s) (has_id key) (logged_in (p.clock v.reads)) v.users).1
          == 0)) [ inl g ↦ absurd (ground (arith, h, f, g)) | inr g ↦ ground (arith, h, f, g) ]
  ]

  marked :
      (current s : Option String) (t id : String) (v v' : World U T R)
      → resolve p current ≡ ok (t, s)
      → mark_logged_in p current id v ≡ (ok tt, v')
      → (v'.tokens ≡ v.tokens) × (v'.reads ≡ v.reads + 1)
  unfolding mark_logged_in
  marked current s t id v v' e h =
      marking-ok s id v v' (sym (with_current_tenant-ok p current s t _ v e) ∙ h)

  issue_session-ok :
      (subject : TokenSubject) (f : String) (v w' : World U T R) (pair : TokenPair K)
      → issue_session p subject f v ≡ (ok pair, w')
      → (pair.access_token
          ≡ p.jwt.sign p.env.jwt_secret p.env.jwt_expires_in
              (p.clock v.reads)
              (access_claims subject))
        × (issue p subject f (record v { reads = v.reads + 1 }) ≡ (ok pair.refresh_token, w'))
  unfolding issue_session sign_access_token
  issue_session-ok subject f v w' pair h =
      let (token, w1, e, h1) =
        >>=-ok (issue p subject f) _ (record v { reads = v.reads + 1 }) w' pair h in
      (ground (arith, h1), ground (arith, e, h1))

  -- The state in which an accepted log-in issues its tokens.
  accept-session :
      (current s : Option String) (t : String) (i : LoginAttemptIdentity) (user : UserRow)
      (w w' : World U T R) (r : LoginResult K)
      → resolve p current ≡ ok (t, s)
      → accept p current i user w ≡ (ok r, w')
      → (f : String) × (v : World U T R) × (v.tokens ≡ w.tokens)
        × (v.reads ≡ w.reads + 1)
        × (issue_session p (subject_of (public_user user)) f v ≡ (ok r.tokens, w'))
  unfolding accept reset clear delete start_family
  accept-session current s t i user w w' r e h =
      let w1 : World U T R = record w { redis = p.redis.del (key_for p i) w.redis } in
      let (_, w2, h2, h3) = >>=-ok (mark_logged_in p current user.id) _ w1 w' r h in
      let (a, b) = marked current s t user.id w1 w2 e h2 in
      let w3 : World U T R = record w2 { drawn = w2.drawn + 1 } in
      let f = p.random_uuid w2.drawn in
      let (tokens, w4, h4, h5) =
        >>=-ok (issue_session p (subject_of (public_user user)) f) _ w3 w' r h3 in
      (f, w3, a, b, ground (arith, h4, h5))

-- The user that a handler sees for a profile.
abbrev pub authenticated : String → AuthenticatedUserProfile → AuthenticatedUser
authenticated tenant_id profile = record {
  user_id = profile.id;
  email = some profile.email;
  tenant_id = tenant_id;
  role = some profile.role;
  permissions = profile.permissions;
}

module _ {U T R K : Type 0} (p : Platform U T R K) where
  resolve-canonical :
      (current : Option String) (t u : String)
      → resolve p current ≡ ok (t, some u)
      → p.to_uuid u ≡ ok u
  unfolding resolve setting_of
  resolve-canonical none t u h = absurd (ground arith)
  resolve-canonical (some c) t u h = elim (Outcome-cases (p.to_uuid c)) [
    | inr (x, f) ↦ absurd (ground (arith, h, f))
    | inl (key, f) ↦
        let same : key ≡ u = ground (arith, h, f) in p.to_uuid_canonical c u (f ∙ ap ok same)
  ]

  module _ (current : Option String) (t u ip : String) (dto : LoginDto) (w w' : World U T R)
      (r : LoginResult K) (e : resolve p current ≡ ok (t, some u))
      (h : login p current dto ip w ≡ (ok r, w')) where
    -- The user who logged in, and the state in which the tokens were issued.
    opened :
        (user : UserRow) × (f : String) × (v : World U T R) × (r.user ≡ profile_of user)
        × (user.tenant_id ≡ u)
        × (v.tokens ≡ w.tokens)
        × (v.reads ≡ w.reads + 1 + 1)
        × (issue_session p (subject_of (public_user user)) f v ≡ (ok r.tokens, w'))
    opened =
        let (few, user, found, active, same, profile) =
          login-ok p current (some u) t ip dto w e r w' h in
        let (_, admitted, _) = p.users.find_first-some _ _ w.users user found in
        let (f, v, a, b, c) =
          accept-session p current (some u) t (identity_of p t dto ip) user
            (record w { reads = w.reads + 1 }) w' r e
            (sym (login-accept p current (some u) t ip dto w e user few found active same) ∙ h) in
        (user, f, v, profile, str_eq-true user.tenant_id u admitted, a, b, c)

    -- The access token of a log-in that succeeded reaches the handler of any route that the user may
    -- use, as that user, until it expires, in requests for the tenant, whose id is not empty.
    pub login-activate :
        (passport : Passport p.jwt) (route : Route) (later : ℕ) (req : Request K)
        → u ≢ ""
        → later < p.jwt.expiry p.env.jwt_expires_in (p.clock (w.reads + 1 + 1)) * 1000
        → req.bearer ≡ some r.tokens.access_token
        → req.tenant_id ≡ some u
        → route.is_public ≡ false
        → IsPermitted route (authenticated u r.user)
        → activate passport p.env.jwt_secret later route req
          ≡ ok (record req { user = some (authenticated u r.user) })
    unfolding validate
    login-activate passport route later req named early b tenant n perm =
        let (user, f, v, profile, place, _, reads, issued) = opened in
        let (signed, _) =
          issue_session-ok p (subject_of (public_user user)) f v w' r.tokens issued in
        let c = access_claims (subject_of (public_user user)) in
        let seen : authenticated u r.user ≡ validate c =
          ap (authenticated u) profile ∙ ap (λ x. authenticated x (profile_of user)) (sym place) in
        let good : p.jwt.verify p.env.jwt_secret later r.tokens.access_token ≡ some c =
          rw (signed, reads) (p.jwt.verify-sign _ _ _ later c early) in
        activate_total passport p.env.jwt_secret later route req r.tokens.access_token c
          (rw place named) b good (tenant ∙ ap some (sym place))
          (subst (IsPermitted route) seen perm) n
        ∙ ap (λ x. ok (record req { user = some x })) (sym seen)

    -- The refresh token of a log-in that succeeded can be consumed, for the user and the tenant of
    -- the log-in, until it expires, while no transaction changes the refresh tokens; these had
    -- unique ids and hashes before, and the tenant's id is not empty.
    pub login-consume :
        (x : World U T R)
        → u ≢ ""
        → Unique (token_rows p w)
        → x.tokens ≡ w'.tokens
        → p.clock x.reads
          < p.jwt.expiry p.env.jwt_refresh_expires_in (p.clock (w.reads + 1 + 1 + 1)) * 1000
        → p.clock (x.reads + 1)
          < p.jwt.expiry p.env.jwt_refresh_expires_in (p.clock (w.reads + 1 + 1 + 1)) * 1000
        → (f : String) × ((consume p r.tokens.refresh_token x).0
            ≡ ok (record { user_id = r.user.id; tenant_id = u; family_id = f }))
    login-consume x named unique kept t1 t2 =
        let (user, f, v, profile, place, tokens, reads, issued) = opened in
        let (_, stored) =
          issue_session-ok p (subject_of (public_user user)) f v w' r.tokens issued in
        let canonical = resolve-canonical current t u e in
        let subject = subject_of (public_user user) in
        let used =
          consume-issue p subject f r.tokens.refresh_token (record v { reads = v.reads + 1 }) w' x
            (rw place named) (rw place canonical) (rw tokens unique) stored kept (rw reads t1)
            (rw reads t2) in
        (f, rw (profile, ← place) used)
