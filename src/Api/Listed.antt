-- ===== src/Api/Listed.antt =====
-- The answer to a request for a page of users.
use hotel_crm.Prelude.{ℕ, ◌+◌, ◌≤◌, ◌≡◌, refl, ap, subst, String, some, List, All, length, arith}
use hotel_crm.Platform.{Platform, World}
use hotel_crm.Platform.Results.{Outcome, ok, err, pure, ◌>>=◌, >>=-ok}
use hotel_crm.Tenant.{tenant_of_header}
use hotel_crm.Auth.Guards.{Passport, activate}
use hotel_crm.Auth.Access.{activate-tenant}
use hotel_crm.Users.Types.{PublicUser}
use hotel_crm.Users.Service.{find_page, PaginatedResult}
use hotel_crm.Users.Listed.{find_page-ok}
use hotel_crm.Users.Effects.{current_setting}
use hotel_crm.Http.Envelope.{
  Payload, plain, paginated, SuccessResponse, rows, request_id_of, intercept,
}
use hotel_crm.Http.Errors.{catch}
use hotel_crm.Api.Routes.{list_users, route_of}
use hotel_crm.Api.Handlers.{Value, Pipes, piped, handle}
use hotel_crm.Api.Pipeline.{Incoming, success, request_of, serve, respond, reply}

module _ {U T R K D : Type 0} (p : Platform U T R K) (passport : Passport p.jwt) (pipes : Pipes K D)
    (incoming : Incoming K D) where
  -- A list of at most a hundred users, all of the tenant of the request.
  abbrev pub IsTenantPage : List PublicUser → Type 0
  IsTenantPage l =
      (length l ≤ 100)
      × All (λ u. current_setting p (tenant_of_header incoming.tenant_id) ≡ some u.tenant_id) l

  served :
      (w w' : World U T R) (payload : Payload (Value K) PublicUser)
      → serve p passport pipes list_users incoming w ≡ (ok payload, w')
      → (page : PaginatedResult PublicUser) × (payload ≡ paginated page) × IsTenantPage page.items
  unfolding serve handle
  served w w' payload h =
      let req = request_of p passport pipes incoming in
      let at = p.clock w.reads in
      let w1 : World U T R = record w { reads = w.reads + 1 } in
      let (seen, w2, e, h2) =
        >>=-ok (piped (activate passport p.env.jwt_secret at (route_of list_users) req))
          (λ seen. handle p pipes list_users seen.tenant_id seen.user incoming.ip incoming.content)
          w1 w' payload h in
      let (query, w3, f, h3) =
        >>=-ok (piped (pipes.list_query incoming.content))
          (λ query. find_page p seen.tenant_id query >>= λ page. pure (paginated page)) w2 w'
          payload h2 in
      let (page, w4, g, h4) = >>=-ok (find_page p seen.tenant_id query) _ w3 w' payload h3 in
      let same =
        activate-tenant passport p.env.jwt_secret at (route_of list_users) req seen
          (ap (λ o. o.0) e) in
      let bounds = pipes.list_query-IsListUsersQuery incoming.content query (ap (λ o. o.0) f) in
      let (short, ours) = find_page-ok p seen.tenant_id query w3 w4 page g in
      let most = bounds.limit_max in
      (
        page,
        ground arith,
        (
          omega arith,
          subst (λ t. All (λ u. current_setting p t ≡ some u.tenant_id) page.items) same ours,
        ),
      )

  responded :
      (id : String) (o : Outcome (Payload (Value K) PublicUser) × World U T R) (status : ℕ)
      (header : String) (r : SuccessResponse (Value K) PublicUser)
      → (respond p passport pipes list_users id o).0 ≡ ok (success status header r)
      → (payload : Payload (Value K) PublicUser) × (o ≡ (ok payload, o.1))
        × ((page : PaginatedResult PublicUser)
            → payload ≡ paginated page
            → r.success_data ≡ rows page.items)
  unfolding respond intercept catch
  responded id (err e, v) status header r h = absurd (ground arith)
  responded id (ok (plain a), v) status header r h =
      (plain a, refl, λ page e. absurd (ground arith))
  responded id (ok (paginated x), v) status header r h =
      (paginated x, refl, λ page e. ground (arith, h, e))

  -- A successful answer to a request for a page of users holds a hundred users at most, and each of
  -- them is of the tenant that the policies read for the request.
  pub reply-listed :
      (w : World U T R) (status : ℕ) (header : String) (r : SuccessResponse (Value K) PublicUser)
      → (reply p passport pipes list_users incoming w).0 ≡ ok (success status header r)
      → (l : List PublicUser) × (r.success_data ≡ rows l) × IsTenantPage l
  unfolding reply
  reply-listed w status header r h =
      let w' = (reply p passport pipes list_users incoming w).1 in
      let (id, v, _, h1) =
        >>=-ok (request_id_of p incoming.request_id) _ w w' (success status header r)
          (ap (λ o. (o, w')) h) in
      let (payload, e, f) =
        responded id (serve p passport pipes list_users incoming v) status header r
          (ap (λ o. o.0) h1) in
      let (page, g, k) = served v _ payload e in (page.items, f page g, k)
