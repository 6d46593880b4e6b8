-- ===== src/Http/Errors.antt =====
-- backend/src/common/http/all-exceptions.filter.ts. Its log line is in Logging/Lines.
use hotel_crm.Prelude.{ℕ, String, Option, none, some, List, ◌==◌, leb, if◌then◌else◌, str_eq}
use Prim.Native.String.{◌++◌}
use hotel_crm.Platform.{Platform, World, now}
use hotel_crm.Platform.Results.{
  Exception, http, prisma, unexpected, Message, one, many, missing, Response, text, object, Action,
  pure, ◌>>=◌,
}
use hotel_crm.Tenant.{non_empty}

-- The messages of class-validator, or the `meta` of a Prisma error.
pub data Details : Type 0 where
  messages : List String → Details
  prisma_meta : Details

pub record ResolvedError : Type 0 where
  pub status : ℕ
  pub code : String
  pub message : String
  pub details : Option Details

unfoldable pub code_for_status : ℕ → String
code_for_status status =
    if status == 400
    then "BAD_REQUEST"
    else (if status == 401
        then "UNAUTHORIZED"
        else (if status == 403
            then "FORBIDDEN"
            else (if status == 404
                then "NOT_FOUND"
                else (if status == 409
                    then "CONFLICT"
                    else (if status == 422
                        then "UNPROCESSABLE_ENTITY"
                        else (if status == 429
                            then "TOO_MANY_REQUESTS"
                            else (if leb 500 status then "INTERNAL_ERROR" else "ERROR")))))))

unfoldable pub map_prisma_error : String → ResolvedError
map_prisma_error error_code =
    if str_eq error_code "P2002"
    then record {
      status = 409;
      code = "DUPLICATE_RESOURCE";
      message = "A resource with these values already exists";
      details = some prisma_meta;
    }
    else (if str_eq error_code "P2025"
        then record {
          status = 404;
          code = "NOT_FOUND";
          message = "The requested resource was not found";
          details = some prisma_meta;
        }
        else record {
          status = 400;
          code = "DB_" ++ error_code;
          message = "Database request error";
          details = none;
        })

abbrev pub plain_error : ℕ → String → ResolvedError
plain_error status message = record {
  status = status;
  code = code_for_status status;
  message = message;
  details = none;
}

-- What the `message` of the response object makes of it.
abbrev pub of_message : ℕ → String → Message → ResolvedError
of_message status message (one m) = plain_error status m
of_message status message (many ms) = record {
  status = status;
  code = "VALIDATION_ERROR";
  message = "Validation failed";
  details = some (messages ms);
}
of_message status message missing = plain_error status message

abbrev pub of_response : ℕ → String → Response → ResolvedError
of_response status message (text t) = plain_error status message
of_response status message (object m) = of_message status message m

abbrev pub internal_error : ResolvedError
internal_error = record {
  status = 500;
  code = "INTERNAL_ERROR";
  message = "Internal server error";
  details = none;
}

unfoldable pub resolve_error : Exception → ResolvedError
resolve_error (http e) = of_response e.status e.message e.response
resolve_error (prisma code) = map_prisma_error code
resolve_error (unexpected e) = internal_error

-- The status, the x-request-id header and the body that the client gets.
pub record ErrorResponse : Type 0 where
  pub http_status : ℕ
  pub request_id_header : Option String
  pub error : ResolvedError
  pub timestamp : ℕ
  pub request_id : Option String

abbrev pub header_of : Option String → Option String
header_of none = none
header_of (some request_id) = non_empty request_id

module _ {U T R K : Type 0} (p : Platform U T R K) where
  unfoldable pub catch : Option String → Exception → Action (World U T R) ErrorResponse
  unfolding resolve_error
  catch request_id exception = do
    at ← now p
    pure (record {
      http_status = (resolve_error exception).status;
      request_id_header = header_of request_id;
      error = resolve_error exception;
      timestamp = at;
      request_id = request_id;
    })
