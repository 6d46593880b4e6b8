-- ===== src/Api/Routes.antt =====
-- The routes of the controllers, with their decorators.
use hotel_crm.Prelude.{ℕ, true, false, none, some, [], ◌∷◌}
use hotel_crm.Auth.Permissions.{permission_name, users_manage}
use hotel_crm.Auth.Guards.{Route}

pub data Endpoint : Type 0 where
  hello : Endpoint
  log_in refresh_session log_out me : Endpoint
  list_users get_user create_user update_user : Endpoint

abbrev public_route : Route
public_route = record { is_public = true; required = none }

-- @RequirePermissions(PERMISSIONS.USERS_MANAGE)
abbrev pub users_route : Route
users_route = record { is_public = false; required = some (permission_name users_manage ∷ []) }

unfoldable pub route_of : Endpoint → Route
route_of hello = public_route
route_of log_in = public_route
route_of refresh_session = public_route
route_of log_out = public_route
route_of me = record { is_public = false; required = none }
route_of list_users = users_route
route_of get_user = users_route
route_of create_user = users_route
route_of update_user = users_route

-- The status of a success: @HttpCode, or what the framework gives to a GET, a PATCH and a POST.
unfoldable pub success_status : Endpoint → ℕ
success_status hello = 200
success_status log_in = 200
success_status refresh_session = 200
success_status log_out = 204
success_status me = 200
success_status list_users = 200
success_status get_user = 200
success_status create_user = 201
success_status update_user = 200
