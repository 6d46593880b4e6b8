-- ===== src/Tests/Fresh.antt =====
-- The tokens of a log-in, used.
use hotel_crm.Prelude.{
  ◌≡◌, ◌≢◌, refl, arith, ap, inr, String, str_eq, false, none, some, [], ◌∷◌, Memᴰ,
}
use hotel_crm.Platform.Results.{ok}
use hotel_crm.Auth.Guards.{Request, Route, activate}
use hotel_crm.Auth.Access.{IsPermitted}
use hotel_crm.Auth.Fresh.{authenticated, login-activate, login-consume}
use hotel_crm.RefreshToken.Service.{consume}
use hotel_crm.Tests.Worlds.{start}
use hotel_crm.Tests.Sessions.{right, tenant, session, logged_in_world, login_run}
use hotel_crm.Memory.Bearer.{passport}
use hotel_crm.Memory.Server.{Memory, Signed, memory}

named : ◌≢◌ {A = String} "t" ""
named e = ground (arith, ap (λ s. str_eq s "t") e)

abbrev route : Route
route = record { is_public = false; required = some ("guests:view" ∷ []) }

abbrev request : Request Signed
request = record { bearer = some session.tokens.access_token; tenant_id = some "t"; user = none }

held : IsPermitted route (authenticated "t" session.user)
held = inr λ p m. elim m [ Memᴰ.head e ↦ Memᴰ.head e | Memᴰ.tail k ↦ elim k [ ] ]

login-activate_example :
    activate passport "access-secret" 5 route request
    ≡ ok (record request { user = some (authenticated "t" session.user) })
login-activate_example =
    login-activate memory (some "t") "t" "t" "ip" right start logged_in_world session tenant
      login_run passport route 5 request named (omega arith) refl refl refl held

abbrev later : Memory
later = record logged_in_world { reads = 7 }

login-consume_example :
    (f : String) × ((consume memory session.tokens.refresh_token later).0
      ≡ ok (record { user_id = session.user.id; tenant_id = "t"; family_id = f }))
login-consume_example =
    login-consume memory (some "t") "t" "t" "ip" right start logged_in_world session tenant
      login_run later named tt refl (omega arith) (omega arith)
