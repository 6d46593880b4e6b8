-- ===== src/Auth/Refusals.antt =====
-- How the guards refuse a request.
use hotel_crm.Prelude.{
  ℕ, ◌≡◌, sym, ◌∙◌, subst, ◌⊎◌, inl, inr, String, false, Option, none, some, List, [], ◌∷◌, arith,
  str_eq, Bool-cases, Option-cases,
}
use hotel_crm.Platform.Results.{err, Exception, bad_request, unauthorized, forbidden, Outcome-cases}
use hotel_crm.Platform.JsonWebToken.{Jwt}
use hotel_crm.Auth.Guards.{
  AuthenticatedUser, Request, Route, validate, Passport, match_tenant, missing_tenant_header,
  tenant_mismatch, check_permissions, tenant_guard, permissions_guard, jwt_auth_guard, activate,
}

-- What the guards throw.
abbrev pub IsRefusal : Exception → Type 0
IsRefusal e = (m : String) × ((e ≡ bad_request m) ⊎ ((e ≡ unauthorized m) ⊎ (e ≡ forbidden m)))

match_tenant-err :
    (header : Option String) (tenant_id : String) (e : Exception)
    → match_tenant header tenant_id ≡ err e
    → IsRefusal e
unfolding match_tenant
match_tenant-err none tenant_id e h = (missing_tenant_header, inl (ground arith))
match_tenant-err (some t) tenant_id e h = elim (Bool-cases (str_eq t "")) [
  | inl f ↦ (missing_tenant_header, inl (ground arith))
  | inr f ↦ (tenant_mismatch, inr (inr (ground arith)))
]

check_permissions-err :
    (required : List String) (user : Option AuthenticatedUser) (e : Exception)
    → check_permissions required user ≡ err e
    → IsRefusal e
unfolding check_permissions
check_permissions-err required none e h = ("No authenticated user", inr (inr (ground arith)))
check_permissions-err required (some user) e h =
    ("Insufficient permissions", inr (inr (ground arith)))

module _ {K : Type 0} where
  tenant_guard-err :
      (route : Route) (req : Request K) (e : Exception)
      → tenant_guard route req ≡ err e
      → IsRefusal e
  unfolding tenant_guard
  tenant_guard-err route req e h = elim (Bool-cases route.is_public) [
    | inl f ↦ absurd (ground arith)
    | inr f ↦ elim (Option-cases req.user) [
      | inl g ↦ absurd (ground arith)
      | inr (user, g) ↦ match_tenant-err req.tenant_id user.tenant_id e (ground arith)
    ]
  ]

  permissions_guard-err :
      (route : Route) (req : Request K) (e : Exception)
      → permissions_guard route req ≡ err e
      → IsRefusal e
  unfolding permissions_guard
  permissions_guard-err route req e h = elim (Option-cases route.required) [
    | inl f ↦ absurd (ground arith)
    | inr ([], f) ↦ absurd (ground arith)
    | inr (q ∷ qs, f) ↦ check_permissions-err (q ∷ qs) req.user e (ground arith)
  ]

  module _ {jwt : Jwt K} (passport : Passport jwt) (secret : String) (at : ℕ) (route : Route)
      (req : Request K) where
    authenticate-err :
        (e : Exception)
        → passport.authenticate secret at validate req.bearer ≡ err e
        → e ≡ unauthorized "Unauthorized"
    authenticate-err e h = elim (Option-cases req.bearer) [
      | inl f ↦
          let refused =
            passport.authenticate_refused secret at validate req.bearer
              (λ token g. absurd (cc (f, g))) in
          ground (arith, h, refused)
      | inr (token, f) ↦ elim (Option-cases (jwt.verify secret at token)) [
        | inl v ↦
            let refused =
              passport.authenticate_refused secret at validate req.bearer
                λ other g. let same : token ≡ other = ground (arith, f, g) in rw (← same) v in
            ground (arith, h, refused)
        | inr (c, v) ↦
            let let_in = passport.authenticate_total secret at validate token c v in
            absurd (ground (arith, rw f at h, let_in))
      ]
    ]

    -- The guards of a route that is not public throw nothing but 400, 401 and 403.
    pub activate-err :
        (e : Exception)
        → route.is_public ≡ false
        → activate passport secret at route req ≡ err e
        → IsRefusal e
    unfolding activate jwt_auth_guard tenant_guard permissions_guard match_tenant check_permissions
    activate-err e n h =
        elim (Outcome-cases (passport.authenticate secret at validate req.bearer)) [
          | inr (x, f) ↦
              let same : x ≡ e = ground arith in (_, inr (inl (sym same ∙ authenticate-err x f)))
          | inl (user, f) ↦
              let seen : Request K = record req { user = some user } in
              elim (Outcome-cases (tenant_guard route seen)) [
                | inr (x, k) ↦
                    let same : x ≡ e = ground arith in
                    subst IsRefusal same (tenant_guard-err route seen x k)
                | inl (tt, k) ↦ permissions_guard-err route seen e (ground arith)
              ]
        ]
