-- ===== src/Http/Envelope.antt =====
-- backend/src/common/http/request-id.middleware.ts and response-envelope.interceptor.ts.
use hotel_crm.Prelude.{ℕ, String, Bool, Option, none, some, List}
use hotel_crm.Platform.{Platform, World, now, draw}
use hotel_crm.Platform.Results.{Action, pure, ◌>>=◌}
use hotel_crm.Tenant.{Header, tenant_of_header}
use hotel_crm.Users.Service.{PaginatedResult, has_more}

-- What a controller returns: a page of rows, or any other value.
pub data Payload (A B : Type 0) : Type 0 where
  plain : A → Payload A B
  paginated : PaginatedResult B → Payload A B

pub data Data (A B : Type 0) : Type 0 where
  single_value : A → Data A B
  rows : List B → Data A B

-- backend/src/common/http/api-response.ts
pub record ResponseMeta : Type 0 where
  pub timestamp : ℕ
  pub request_id : Option String
  pub page : Option ℕ
  pub limit : Option ℕ
  pub total : Option ℕ
  pub has_more : Option Bool

pub record SuccessResponse (A B : Type 0) : Type 0 where
  pub success_data : Data A B
  pub meta : ResponseMeta

abbrev pub plain_meta : ℕ → Option String → ResponseMeta
plain_meta at request_id = record {
  timestamp = at;
  request_id = request_id;
  page = none;
  limit = none;
  total = none;
  has_more = none;
}

abbrev pub wrapped : {A B : Type 0} → ℕ → Option String → Payload A B → SuccessResponse A B
wrapped at request_id (plain a) = record {
  success_data = single_value a;
  meta = plain_meta at request_id;
}
wrapped at request_id (paginated r) = record {
  success_data = rows r.items;
  meta = record (plain_meta at request_id) {
    page = some r.page;
    limit = some r.limit;
    total = some r.total;
    has_more = some (has_more r);
  };
}

module _ {U T R K : Type 0} (p : Platform U T R K) where
  -- The id that the request and the response get. The header is read as the tenant's is.
  unfoldable pub own_or_drawn : Option String → Action (World U T R) String
  own_or_drawn (some request_id) = pure request_id
  own_or_drawn none = draw p

  unfoldable pub request_id_of : Header → Action (World U T R) String
  unfolding own_or_drawn
  request_id_of incoming = own_or_drawn (tenant_of_header incoming)

  -- `ResponseEnvelopeInterceptor.intercept`, of what the handler returned.
  unfoldable pub intercept :
      {A B : Type 0} → Option String → Payload A B → Action (World U T R) (SuccessResponse A B)
  intercept request_id payload = do at ← now p; pure (wrapped at request_id payload)
