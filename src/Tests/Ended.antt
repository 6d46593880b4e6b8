-- ===== src/Tests/Ended.antt =====
-- Sessions that are exchanged and ended.
use hotel_crm.Prelude.{
  ℕ, zero, suc, ◌+◌, ◌≡◌, refl, arith, ap, String, none, some, List, [], ◌∷◌, Memᴰ,
}
use Prim.Native.Char.{code}
use hotel_crm.Schema.{TokenRow}
use hotel_crm.Platform.Results.{ok}
use hotel_crm.Tenant.{single, tenant_of_header, setting_of, with_tenant}
use hotel_crm.Auth.Guards.{activate, jwt_auth_guard, tenant_guard, permissions_guard}
use hotel_crm.Auth.Sessions.{access_claims, refresh, renew, issue_session, sign_access_token}
use hotel_crm.Users.Types.{PublicUser}
use hotel_crm.Users.Repository.{find_by_id_in_tenant, select_user}
use hotel_crm.RefreshToken.Repository.{
  policy, has_hash, create, insert, find_by_hash, claim, stamp, delete_expired_for_user,
}
use hotel_crm.RefreshToken.Service.{
  refresh_claims, hash, issue, sign_refresh, expires_at_of, milliseconds, consume, verify,
  try_verify, or_invalid, unexpired, settle,
}
use hotel_crm.RefreshToken.Effects.{token_rows}
use hotel_crm.RefreshToken.Unique.{Unique}
use hotel_crm.RefreshToken.Issue.{stored_row}
use hotel_crm.RefreshToken.Reuse.{verified}
use hotel_crm.Http.Envelope.{
  SuccessResponse, single_value, plain_meta, request_id_of, own_or_drawn, intercept,
}
use hotel_crm.Http.Errors.{ErrorResponse}
use hotel_crm.Api.Routes.{create_user, refresh_session, log_out, route_of, success_status}
use hotel_crm.Api.Handlers.{Value, handle, pair}
use hotel_crm.Api.Pipeline.{Incoming, success, failure, serve, respond, reply}
use hotel_crm.Api.Served.{Call, served}
use hotel_crm.Api.Ended.{IsUnrepeated}
use hotel_crm.Api.Once.{refresh_once}
use hotel_crm.Api.LoggedOut.{log_out_final}
use hotel_crm.Tests.Worlds.{admin_token, newcomer, subject, token, issued, start}
use hotel_crm.Memory.Bearer.{passport}
use hotel_crm.Memory.Requests.{Content, session_token, new_user, pipes}
use hotel_crm.Memory.Server.{Signed, memory, memory_jwt}

-- A request with the refresh token, without an access token.
abbrev shown : Incoming Signed Content
shown = record {
  request_id = single "r1";
  tenant_id = single "t";
  bearer = none;
  ip = "10.0.0.1";
  content = session_token token;
}

abbrev between : List (Call Signed Content)
between =
    record {
      endpoint = create_user;
      incoming = record shown { bearer = some (admin_token "t"); content = new_user newcomer };
    }
    ∷ []

issued-Unique : Unique (token_rows memory issued)
unfolding issue sign_refresh hash expires_at_of milliseconds delete_expired_for_user create insert
    with_tenant setting_of
issued-Unique = (tt, tt)

first_code : String → ℕ
first_code String.[] = 0
first_code (String.◌∷◌ c s) = code c

unrepeated : IsUnrepeated memory (hash memory token) issued
unfolding first_code issue sign_refresh hash expires_at_of milliseconds delete_expired_for_user
    create insert with_tenant setting_of
unrepeated other zero at h e = absurd (omega arith)
unrepeated other (suc n) at h e = absurd (omega (arith, ap first_code e))

setting : setting_of memory "t" ≡ ok (some "t")
unfolding setting_of
setting = refl

abbrev unspent : TokenRow
unspent = stored_row memory subject "f" start

claims :
    verified memory token (record issued { reads = issued.reads + 1 })
    ≡ some (refresh_claims subject "u")
unfolding issue sign_refresh hash expires_at_of milliseconds delete_expired_for_user create insert
    with_tenant setting_of
claims = refl

found :
    (memory.tokens.find_first (policy (some "t")) (has_hash (hash memory token)) issued.tokens)
    ≡ some unspent
unfolding issue sign_refresh hash expires_at_of milliseconds delete_expired_for_user create insert
    with_tenant setting_of
found = refl

listed : Memᴰ unspent (token_rows memory issued)
unfolding issue sign_refresh hash expires_at_of milliseconds delete_expired_for_user create insert
    with_tenant setting_of
listed = Memᴰ.head refl

log_out_final_example :
    (f : ErrorResponse) × ((reply memory passport pipes refresh_session shown (
        served memory passport pipes between
          (reply memory passport pipes log_out shown issued).1)).0
      ≡ ok (failure f))
log_out_final_example =
    log_out_final memory passport pipes shown shown token token between issued
      (refresh_claims subject "u") (some "t") unspent unspent refl refl claims setting found listed
      refl refl refl issued-Unique unrepeated

abbrev exchanged : SuccessResponse (Value Signed) PublicUser
exchanged = record {
  success_data = single_value (
      pair (record {
        access_token = memory_jwt.sign "access-secret" "24h" 7 (access_claims subject);
        refresh_token = sign_refresh memory 8 (refresh_claims subject "xxu");
      }));
  meta = plain_meta 11 (some "r1");
}

refreshed :
    (reply memory passport pipes refresh_session shown issued).0 ≡ ok (success 200 "r1" exchanged)
unfolding reply serve respond request_id_of own_or_drawn tenant_of_header activate jwt_auth_guard
    tenant_guard permissions_guard route_of success_status handle refresh consume verify try_verify
    or_invalid find_by_hash unexpired claim stamp settle with_tenant setting_of find_by_id_in_tenant
    select_user renew issue_session sign_access_token issue sign_refresh hash expires_at_of
    milliseconds delete_expired_for_user create insert intercept
refreshed = refl

refresh_once_example :
    (f : ErrorResponse) × ((reply memory passport pipes refresh_session shown (
        served memory passport pipes between
          (reply memory passport pipes refresh_session shown issued).1)).0
      ≡ ok (failure f))
refresh_once_example =
    refresh_once memory passport pipes shown shown token between issued 200 "r1" exchanged refl refl
      issued-Unique unrepeated refreshed
