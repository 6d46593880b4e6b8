-- ===== src/Http/Hidden.antt =====
-- What of an error reaches the client.
use hotel_crm.Prelude.{ℕ, ◌≤◌, ◌≡◌, refl, arith, ◌⊎◌, inl, inr, String, Option}
use hotel_crm.Platform.{Platform, World}
use hotel_crm.Platform.Results.{
  Exception, http, prisma, unexpected, HttpException, one, many, missing, Response, text, object,
  ok,
}
use hotel_crm.Http.Errors.{
  map_prisma_error, internal_error, resolve_error, catch, ErrorResponse, of_response,
}

prisma_status : (code : String) → (map_prisma_error code).status ≤ 409
unfolding map_prisma_error
prisma_status code = ground arith

http_status-kept :
    (status : ℕ) (message : String) (r : Response) → (of_response status message r).status ≡ status
http_status-kept status message (text t) = refl
http_status-kept status message (object (one m)) = refl
http_status-kept status message (object (many ms)) = refl
http_status-kept status message (object missing) = refl

module _ {U T R K : Type 0} (p : Platform U T R K) where
  -- An answer with status 500 or above says nothing of the error: its body is the fixed one, unless
  -- the code threw an HttpException with that very status.
  pub catch-hidden :
      (request_id : Option String) (e : Exception) (w w' : World U T R) (r : ErrorResponse)
      → catch p request_id e w ≡ (ok r, w')
      → 500 ≤ r.http_status
      → (r.error ≡ internal_error)
        ⊎ ((x : HttpException) × (e ≡ http x) × (x.status ≡ r.http_status))
  unfolding catch resolve_error
  catch-hidden request_id (http x) w w' r h s =
      let kept = http_status-kept x.status x.message x.response in inr (x, refl, ground arith)
  catch-hidden request_id (prisma code) w w' r h s =
      let small = prisma_status code in absurd (ground arith)
  catch-hidden request_id (unexpected x) w w' r h s = inl (ground arith)
