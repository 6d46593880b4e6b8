-- ===== src/Tests/Served.antt =====
-- Requests that are served one after the other.
use hotel_crm.Prelude.{
  ◌<◌, ◌≡◌, ◌≢◌, refl, arith, ap, String, str_eq, Bool, true, Option, none, some, List, [], ◌∷◌,
  All, Memᴰ, keep, count,
}
use hotel_crm.Schema.{UserRow}
use hotel_crm.Tenant.{single, tenant_of_header, setting_of}
use hotel_crm.Users.Rows.{UniqueUsers, user_rows, resolve}
use hotel_crm.Users.Effects.{current_setting}
use hotel_crm.Users.Isolation.{in_tenant, SameAccount}
use hotel_crm.Users.Admins.{admins_of}
use hotel_crm.RefreshToken.Effects.{token_rows}
use hotel_crm.RefreshToken.Unique.{Unique}
use hotel_crm.Api.Routes.{create_user, update_user, list_users}
use hotel_crm.Api.Pipeline.{Incoming}
use hotel_crm.Api.Served.{Call, tenant_of, served}
use hotel_crm.Api.Kept.{served-isolated, served-account, served-UniqueUsers}
use hotel_crm.Api.Admins.{served-keeps_admin}
use hotel_crm.Tests.Worlds.{admin_token, newcomer, demotion, start, ann}
use hotel_crm.Memory.Bearer.{passport}
use hotel_crm.Memory.Requests.{Content, empty, new_user, patch, pipes}
use hotel_crm.Memory.Server.{Signed, memory}

-- What an administrator of a tenant sends.
abbrev sent : String → Content → Incoming Signed Content
sent tenant content = record {
  request_id = single "r1";
  tenant_id = single tenant;
  bearer = some (admin_token tenant);
  ip = "10.0.0.1";
  content = content;
}

abbrev elsewhere : List (Call Signed Content)
elsewhere =
    record { endpoint = create_user; incoming = sent "z" (new_user newcomer) }
    ∷ record { endpoint = list_users; incoming = sent "z" empty }
    ∷ []

-- A user is created and an admin demoted.
abbrev at_home : List (Call Signed Content)
at_home =
    record { endpoint = create_user; incoming = sent "t" (new_user newcomer) }
    ∷ record { endpoint = update_user; incoming = sent "t" (patch "c" demotion) }
    ∷ []

is_t : Option String → Bool
is_t none = true
is_t (some s) = str_eq s "t"

z_other : current_setting memory (some "z") ≢ some "t"
unfolding resolve setting_of is_t
z_other e = absurd (ground (arith, ap is_t e))

all_other : All (λ call. current_setting memory (tenant_of call) ≢ some "t") elsewhere
unfolding tenant_of_header
all_other = (z_other, (z_other, tt))

served-isolated_example :
    keep (in_tenant "t") (user_rows memory (served memory passport pipes elsewhere start))
    ≡ keep (in_tenant "t") (user_rows memory start)
served-isolated_example = served-isolated memory passport pipes "t" elsewhere start all_other

unique : UniqueUsers (user_rows memory start)
unique = ((refl, (refl, tt)), ((refl, tt), (tt, tt)))

served-UniqueUsers_example :
    UniqueUsers (user_rows memory (served memory passport pipes at_home start))
    × Unique (token_rows memory (served memory passport pipes at_home start))
served-UniqueUsers_example = served-UniqueUsers memory passport pipes at_home start unique tt

served-account_example :
    (x : UserRow) × Memᴰ x (user_rows memory (served memory passport pipes at_home start))
    × SameAccount ann x
served-account_example = served-account memory passport pipes at_home start ann (Memᴰ.head refl)

one_admin : 0 < count (admins_of "t") (user_rows memory start)
one_admin = omega arith

served-keeps_admin_example :
    0 < count (admins_of "t") (user_rows memory (served memory passport pipes at_home start))
served-keeps_admin_example =
    served-keeps_admin memory passport pipes "t" at_home start unique one_admin
