-- ===== src/Tests/Requests.antt =====
-- Requests from their headers to the replies.
use hotel_crm.Prelude.{◌≡◌, refl, ◌⊎◌, true, false, some, List, map}
use hotel_crm.Platform.Results.{ok}
use hotel_crm.Tenant.{
  single, tenant_of_header, setting_of, with_tenant, with_current_tenant, require_tenant_id,
}
use hotel_crm.Auth.Guards.{
  validate, activate, jwt_auth_guard, tenant_guard, permissions_guard, match_tenant,
  check_permissions,
}
use hotel_crm.Users.Types.{PublicUser, public_user}
use hotel_crm.Users.Repository.{PageRequest, user_policy, newest_first}
use hotel_crm.Users.Repository
use hotel_crm.Users.Service.{find_page}
use hotel_crm.Http.Envelope.{SuccessResponse, rows, request_id_of, own_or_drawn, intercept}
use hotel_crm.Http.Errors.{ErrorResponse}
use hotel_crm.Api.Routes.{list_users, create_user, route_of, success_status}
use hotel_crm.Api.Handlers.{Value, handle}
use hotel_crm.Api.Pipeline.{Incoming, success, failure, serve, respond, reply}
use hotel_crm.Api.Guarded.{reply-guarded, SameState, IsAdmitted}
use hotel_crm.Api.Listed.{reply-listed, IsTenantPage}
use hotel_crm.Tests.Worlds.{admin_token, newcomer, start}
use hotel_crm.Memory.Bearer.{passport}
use hotel_crm.Memory.Requests.{Content, new_user, query, pipes}
use hotel_crm.Memory.Server.{Signed, memory}

-- An administrator of another hotel creates a user there.
abbrev elsewhere : Incoming Signed Content
elsewhere = record {
  request_id = single "r1";
  tenant_id = single "z";
  bearer = some (admin_token "z");
  ip = "10.0.0.1";
  content = new_user newcomer;
}

protected : (route_of create_user).is_public ≡ false
unfolding route_of
protected = refl

reply-guarded_example :
    IsAdmitted memory passport pipes create_user elsewhere start
    ⊎ ((f : ErrorResponse) × ((reply memory passport pipes create_user elsewhere start).0
          ≡ ok (failure f))
        × (f.http_status ≡ 400 ⊎ (f.http_status ≡ 401 ⊎ f.http_status ≡ 403))
        × SameState (reply memory passport pipes create_user elsewhere start).1 start)
reply-guarded_example = reply-guarded memory passport pipes create_user elsewhere start protected

-- An administrator reads the first page of two users.
abbrev reads_page : Incoming Signed Content
reads_page = record {
  request_id = single "r1";
  tenant_id = single "t";
  bearer = some (admin_token "t");
  ip = "10.0.0.1";
  content = query (record { page = 1; limit = 2 });
}

abbrev page : SuccessResponse (Value Signed) PublicUser
page = record {
  success_data = rows (
      map public_user
        (memory.users.find_many (user_policy (some "t")) (newest_first memory) 0 2 start.users));
  meta = record {
    timestamp = 1;
    request_id = some "r1";
    page = some 1;
    limit = some 2;
    total = some 3;
    has_more = some true;
  };
}

answered : (reply memory passport pipes list_users reads_page start).0 ≡ ok (success 200 "r1" page)
unfolding reply serve respond request_id_of own_or_drawn tenant_of_header activate jwt_auth_guard
    tenant_guard permissions_guard match_tenant check_permissions validate route_of success_status
    handle find_page Repository.find_page with_current_tenant with_tenant setting_of
    require_tenant_id intercept
answered = refl

reply-listed_example :
    (l : List PublicUser) × (page.success_data ≡ rows l)
    × IsTenantPage memory passport pipes reads_page l
reply-listed_example = reply-listed memory passport pipes reads_page start 200 "r1" page answered
