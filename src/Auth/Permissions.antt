-- ===== src/Auth/Permissions.antt =====
-- backend/src/auth/permissions.ts
use hotel_crm.Prelude.{String, List, [], ◌∷◌, map}
use hotel_crm.Schema.{Role, admin, manager, staff}

pub data Permission : Type 0 where
  guests_view guests_edit network_view network_edit tickets_view tickets_edit reports_view
        users_manage :
      Permission

abbrev pub permission_name : Permission → String
permission_name guests_view = "guests:view"
permission_name guests_edit = "guests:edit"
permission_name network_view = "network:view"
permission_name network_edit = "network:edit"
permission_name tickets_view = "tickets:view"
permission_name tickets_edit = "tickets:edit"
permission_name reports_view = "reports:view"
permission_name users_manage = "users:manage"

abbrev pub all_permissions : List Permission
all_permissions =
    guests_view ∷ guests_edit ∷ network_view ∷ network_edit ∷ tickets_view ∷ tickets_edit
    ∷ reports_view ∷ users_manage ∷ []

abbrev pub role_name : Role → String
role_name admin = "admin"
role_name manager = "manager"
role_name staff = "staff"

-- ROLE_DEFAULT_PERMISSIONS
abbrev pub role_defaults : Role → List Permission
role_defaults admin = all_permissions
role_defaults manager =
    guests_view ∷ guests_edit ∷ tickets_view ∷ tickets_edit ∷ network_view ∷ reports_view
    ∷ users_manage ∷ []
role_defaults staff = guests_view ∷ tickets_view ∷ []

-- The texts that a user row gets.
abbrev pub default_permissions : Role → List String
default_permissions r = map permission_name (role_defaults r)
