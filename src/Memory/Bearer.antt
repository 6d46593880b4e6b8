-- ===== src/Memory/Bearer.antt =====
-- Bearer tokens on the platform in memory.
use hotel_crm.Prelude.{ℕ, ◌≡◌, refl, arith, inl, inr, String, Option, none, some, Option-cases}
use hotel_crm.Platform.Results.{Outcome, ok, err, unauthorized}
use hotel_crm.Platform.JsonWebToken.{Claims}
use hotel_crm.Auth.Guards.{AuthenticatedUser, Passport}
use hotel_crm.Memory.Server.{Signed, memory_jwt}

abbrev pub checked : (Claims → AuthenticatedUser) → Option Claims → Outcome AuthenticatedUser
checked check none = err (unauthorized "Unauthorized")
checked check (some c) = ok (check c)

abbrev pub authenticate :
    String → ℕ → (Claims → AuthenticatedUser) → Option Signed → Outcome AuthenticatedUser
authenticate secret at check none = err (unauthorized "Unauthorized")
authenticate secret at check (some token) = checked check (memory_jwt.verify secret at token)

pub authenticate-ok :
    (secret : String) (at : ℕ) (check : Claims → AuthenticatedUser) (bearer : Option Signed)
    (user : AuthenticatedUser)
    → authenticate secret at check bearer ≡ ok user
    → (token : Signed) × (c : Claims) × (bearer ≡ some token)
      × (memory_jwt.verify secret at token ≡ some c)
      × (user ≡ check c)
authenticate-ok secret at check none user h = absurd (ground arith)
authenticate-ok secret at check (some token) user h =
    elim (Option-cases (memory_jwt.verify secret at token)) [
      | inl e ↦ absurd (ground arith)
      | inr (c, e) ↦ (token, c, refl, e, ground arith)
    ]

pub authenticate_total :
    (secret : String) (at : ℕ) (check : Claims → AuthenticatedUser) (token : Signed) (c : Claims)
    → memory_jwt.verify secret at token ≡ some c
    → authenticate secret at check (some token) ≡ ok (check c)
authenticate_total secret at check token c h = rw h

pub authenticate_refused :
    (secret : String) (at : ℕ) (check : Claims → AuthenticatedUser) (bearer : Option Signed)
    → ((token : Signed) → bearer ≡ some token → memory_jwt.verify secret at token ≡ none)
    → authenticate secret at check bearer ≡ err (unauthorized "Unauthorized")
authenticate_refused secret at check none h = refl
authenticate_refused secret at check (some token) h = rw (h token refl)

abbrev pub passport : Passport memory_jwt
passport = record {
  authenticate = authenticate;
  authenticate-ok = authenticate-ok;
  authenticate_total = authenticate_total;
  authenticate_refused = authenticate_refused;
}
