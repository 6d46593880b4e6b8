-- ===== src/Tenant.antt =====
-- backend/src/common/tenant/: the tenant of a request, and the transactions that run under it.
-- The policies of backend/prisma/migrations compare `tenant_id` with the setting
-- `app.current_tenant_id`, which is NULL when it is empty.
use hotel_crm.Prelude.{
  ◌≡◌, ◌≢◌, str_eq_ne, arith, String, Bool, false, Option, none, some, List, [], ◌∷◌, if◌then◌else◌,
  str_eq,
}
use hotel_crm.Platform.{Platform, World}
use hotel_crm.Platform.Results.{Outcome, ok, err, Action, throw, bad_request, ◌>>=◌}

-- A request header: absent, one value, or several.
pub data Header : Type 0 where
  absent : Header
  single : String → Header
  several : List String → Header

-- JavaScript's test of a string that may be undefined.
abbrev pub non_empty : String → Option String
non_empty s = if str_eq s "" then none else some s

abbrev first_of_several : List String → Option String
first_of_several [] = none
first_of_several (s ∷ rest) = non_empty s

-- `TenantMiddleware.use`: the tenant that the request gets.
unfoldable pub tenant_of_header : Header → Option String
tenant_of_header absent = none
tenant_of_header (single s) = non_empty s
tenant_of_header (several l) = first_of_several l

abbrev pub missing_tenant : String
missing_tenant = "Missing tenant context: the x-tenant-id header is required for this request."

-- `tenant_id = NULLIF(current_setting(...), '')::uuid`
abbrev pub admits : Option String → String → Bool
admits none tenant_id = false
admits (some t) tenant_id = str_eq tenant_id t

module _ {U T R : Type 0} where
  -- `requireTenantId`; a tenant of the request is never the empty text, but the test says so.
  unfoldable pub require_tenant_id : Option String → Action (World U T R) String
  require_tenant_id none w = throw (bad_request missing_tenant) w
  require_tenant_id (some t) w =
      if str_eq t "" then throw (bad_request missing_tenant) w else (ok t, w)

  -- A transaction that throws changes no table.
  abbrev pub rolled_back :
      {A : Type 0} → World U T R → Outcome A × World U T R → Outcome A × World U T R
  rolled_back w (ok a, w') = (ok a, w')
  rolled_back w (err e, w') = (err e, record w' { users = w.users; tokens = w.tokens })

module _ {U T R K : Type 0} (p : Platform U T R K) where
  abbrev found_uuid : Outcome String → Outcome (Option String)
  found_uuid (ok u) = ok (some u)
  found_uuid (err e) = err e

  unfoldable pub setting_of : String → Outcome (Option String)
  setting_of tenant = if str_eq tenant "" then ok none else found_uuid (p.to_uuid tenant)

  unfoldable pub with_tenant :
      {A : Type 0} → String → (Option String → Action (World U T R) A) → Action (World U T R) A
  with_tenant tenant work w = rolled_back w (((λ v. (setting_of tenant, v)) >>= work) w)

  unfoldable pub with_current_tenant :
      {A : Type 0}
      → Option String
      → (Option String → String → Action (World U T R) A)
      → Action (World U T R) A
  with_current_tenant current work = do
    tenant ← require_tenant_id current
    with_tenant tenant (λ setting. work setting tenant)

  -- What a successful transaction went through.
  pub with_tenant-ok :
      {A : Type 0} (tenant : String) (work : Option String → Action (World U T R) A)
      (w w' : World U T R) (a : A)
      → with_tenant tenant work w ≡ (ok a, w')
      → (s : Option String) × (setting_of tenant ≡ ok s) × (work s w ≡ (ok a, w'))
  unfolding with_tenant
  with_tenant-ok tenant work w w' a h = ground arith

  pub setting_of_uuid :
      (tenant u : String) → tenant ≢ "" → p.to_uuid tenant ≡ ok u → setting_of tenant ≡ ok (some u)
  unfolding setting_of
  setting_of_uuid tenant u h e = rw (str_eq_ne tenant "" h, e)
