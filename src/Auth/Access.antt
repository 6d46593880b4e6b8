-- ===== src/Auth/Access.antt =====
-- Who reaches the handler of a route.
use hotel_crm.Prelude.{
  ℕ, ◌≡◌, ◌≢◌, refl, sym, ap, ◌∙◌, subst, ◌⊎◌, inl, inr, String, true, false, Option, none, some,
  List, [], ◌∷◌, Memᴰ, arith, str_eq, str_eq-true, str_eq_refl, str_eq_ne, Bool-cases, Option-cases,
}
use mathlib.Core.Option
use hotel_crm.Platform.Results.{ok, Outcome-cases}
use hotel_crm.Platform.JsonWebToken.{Claims, Jwt}
use hotel_crm.Auth.Guards.{
  AuthenticatedUser, Request, Route, validate, Passport, match_tenant, includes, every, is_admin,
  check_permissions, tenant_guard, permissions_guard, jwt_auth_guard, activate,
}

includes-Memᴰ : (xs : List String) (p : String) → includes xs p ≡ true → Memᴰ p xs
includes-Memᴰ [] p h = absurd (ground arith)
includes-Memᴰ (x ∷ xs) p h = elim (Bool-cases (str_eq x p)) [
  | inl e ↦ Memᴰ.head (sym (str_eq-true x p e))
  | inr e ↦ Memᴰ.tail (includes-Memᴰ xs p (ground arith))
]

Memᴰ-includes : (xs : List String) (p : String) → Memᴰ p xs → includes xs p ≡ true
Memᴰ-includes [] p m = elim m [ ]
Memᴰ-includes (x ∷ xs) p (Memᴰ.head e) = rw (e, str_eq_refl x)
Memᴰ-includes (x ∷ xs) p (Memᴰ.tail m) = let rest = Memᴰ-includes xs p m in ground arith

-- Every text of the one list is in the other.
abbrev pub Within : List String → List String → Type 0
Within ps held = (p : String) → Memᴰ p ps → Memᴰ p held

every-Within : (held ps : List String) → every (includes held) ps ≡ true → Within ps held
every-Within held [] h p m = elim m [ ]
every-Within held (q ∷ qs) h p (Memᴰ.head e) = includes-Memᴰ held p (rw e (ground arith))
every-Within held (q ∷ qs) h p (Memᴰ.tail m) = every-Within held qs (ground arith) p m

Within-every : (held ps : List String) → Within ps held → every (includes held) ps ≡ true
Within-every held [] h = refl
Within-every held (q ∷ qs) h =
    let first = Memᴰ-includes held q (h q (Memᴰ.head refl)) in
    let rest = Within-every held qs (λ p m. h p (Memᴰ.tail m)) in ground arith

-- A user may use a route: an administrator, or one who holds all that the route requires.
abbrev pub IsPermitted : Route → AuthenticatedUser → Type 0
IsPermitted route user =
    (user.role ≡ some "admin") ⊎ Within (Option.get_or route.required []) user.permissions

is_admin-role : (role : Option String) → is_admin role ≡ true → role ≡ some "admin"
is_admin-role none h = absurd (ground arith)
is_admin-role (some r) h = ap some (str_eq-true r "admin" h)

module _ {K : Type 0} where
  permissions_guard-ok :
      (route : Route) (req : Request K) (user : AuthenticatedUser)
      → req.user ≡ some user
      → permissions_guard route req ≡ ok tt
      → IsPermitted route user
  unfolding permissions_guard check_permissions
  permissions_guard-ok route req user e h = elim (Option-cases route.required) [
    | inl f ↦ inr (rw f λ p m. elim m [ ])
    | inr ([], f) ↦ inr (rw f λ p m. elim m [ ])
    | inr (q ∷ qs, f) ↦ elim (Bool-cases (is_admin user.role)) [
      | inl a ↦ inl (is_admin-role user.role a)
      | inr a ↦ inr (rw f (every-Within user.permissions (q ∷ qs) (ground arith)))
    ]
  ]

  permissions_guard_total :
      (route : Route) (req : Request K) (user : AuthenticatedUser)
      → req.user ≡ some user
      → IsPermitted route user
      → permissions_guard route req ≡ ok tt
  unfolding permissions_guard check_permissions
  permissions_guard_total route req user e h = elim (Option-cases route.required) [
    | inl f ↦ rw f
    | inr ([], f) ↦ rw f
    | inr (q ∷ qs, f) ↦ elim h [
      | inl a ↦ rw (f, e, a)
      | inr held ↦ let all = Within-every user.permissions (q ∷ qs) (rw f at held) in ground arith
    ]
  ]

  tenant_guard-ok :
      (route : Route) (req : Request K) (user : AuthenticatedUser)
      → route.is_public ≡ false
      → req.user ≡ some user
      → tenant_guard route req ≡ ok tt
      → req.tenant_id ≡ some user.tenant_id
  unfolding tenant_guard match_tenant
  tenant_guard-ok route req user n e h = elim (Option-cases req.tenant_id) [
    | inl f ↦ absurd (ground arith)
    | inr (t, f) ↦ f ∙ ap some (str_eq-true t user.tenant_id (ground arith))
  ]

  tenant_guard_total :
      (route : Route) (req : Request K) (user : AuthenticatedUser)
      → user.tenant_id ≢ ""
      → req.user ≡ some user
      → req.tenant_id ≡ some user.tenant_id
      → tenant_guard route req ≡ ok tt
  unfolding tenant_guard match_tenant
  tenant_guard_total route req user n e h =
      let same = str_eq_refl user.tenant_id in
      let named = str_eq_ne user.tenant_id "" n in
      elim (Bool-cases route.is_public) [ inl f ↦ rw f | inr f ↦ rw (f, e, h, named, same) ]

  module _ {jwt : Jwt K} (passport : Passport jwt) (secret : String) (at : ℕ) (route : Route)
      (req : Request K) where
    abbrev seen_by : Claims → Request K
    seen_by c = record req { user = some (validate c) }

    -- A request reaches the handler of a route that is not public only with a bearer token that
    -- verifies, for the tenant of the token, and with the permissions that the route requires or
    -- as an administrator; the handler then sees the user of the token.
    pub activate-ok :
        (seen : Request K)
        → route.is_public ≡ false
        → activate passport secret at route req ≡ ok seen
        → (token : K) × (c : Claims) × (req.bearer ≡ some token)
          × (jwt.verify secret at token ≡ some c)
          × (seen ≡ record req { user = some (validate c) })
          × (req.tenant_id ≡ some c.tenant_id)
          × IsPermitted route (validate c)
    unfolding activate jwt_auth_guard validate
    activate-ok seen n h =
        elim (Outcome-cases (passport.authenticate secret at validate req.bearer)) [
          | inr (x, e) ↦ absurd (ground arith)
          | inl (user, e) ↦
              let (token, c, f, g, same) =
                passport.authenticate-ok secret at validate req.bearer user e in
              let r : Request K = record req { user = some user } in
              elim (Outcome-cases (tenant_guard route r)) [
                | inr (x, k) ↦ absurd (ground arith)
                | inl (tt, k) ↦ elim (Outcome-cases (permissions_guard route r)) [
                  | inr (x, l) ↦ absurd (ground arith)
                  | inl (tt, l) ↦ (
                    token,
                    c,
                    f,
                    g,
                    rw (← same) (ground arith),
                    tenant_guard-ok route r user n refl k ∙ ap (λ u. some u.tenant_id) same,
                    subst (IsPermitted route) same (permissions_guard-ok route r user refl l),
                  )
                ]
              ]
        ]

    chained :
        (seen : Request K)
        → jwt_auth_guard passport secret at route req ≡ ok seen
        → tenant_guard route seen ≡ ok tt
        → permissions_guard route seen ≡ ok tt
        → activate passport secret at route req ≡ ok seen
    unfolding activate
    chained seen e f g = rw e (rw f (rw g))

    -- A request to a route that is not public, with a bearer token that verifies, for the tenant of
    -- the token, which is not empty, and of a user who may use the route, reaches the handler with
    -- that user.
    pub activate_total :
        (token : K) (c : Claims)
        → c.tenant_id ≢ ""
        → req.bearer ≡ some token
        → jwt.verify secret at token ≡ some c
        → req.tenant_id ≡ some c.tenant_id
        → IsPermitted route (validate c)
        → route.is_public ≡ false
        → activate passport secret at route req ≡ ok (record req { user = some (validate c) })
    unfolding jwt_auth_guard
    activate_total token c named f g t perm n =
        chained (seen_by c) (rw (n, f, passport.authenticate_total secret at validate token c g))
          (tenant_guard_total route (seen_by c) (validate c) named refl t)
          (permissions_guard_total route (seen_by c) (validate c) refl perm)

    -- What the guards let through is a request for the same tenant.
    pub activate-tenant :
        (seen : Request K)
        → activate passport secret at route req ≡ ok seen
        → seen.tenant_id ≡ req.tenant_id
    unfolding activate jwt_auth_guard
    activate-tenant seen h = elim (Bool-cases route.is_public) [
      | inl n ↦ ground arith
      | inr n ↦ elim (Outcome-cases (passport.authenticate secret at validate req.bearer)) [
        | inr (x, e) ↦ absurd (ground arith)
        | inl (user, e) ↦ ground arith
      ]
    ]
