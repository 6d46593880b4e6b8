-- ===== src/Logging/Lines.antt =====
-- The lines that backend/src/common/http/all-exceptions.filter.ts, auth/login-throttle.service.ts
-- and auth/refresh-token.service.ts log. Numbers come as the texts that a template makes of them.
use hotel_crm.Prelude.{String, Option, leb, if◌then◌else◌}
use Prim.Native.String.{◌++◌}
use mathlib.Core.Option
use hotel_crm.LoginThrottle.Counter.{LoginAttemptIdentity}
use hotel_crm.RefreshToken.Repository.{StoredRefreshToken}
use hotel_crm.Http.Errors.{ResolvedError}

-- A warning, or an error with the stack of what was thrown.
pub data LogLine : Type 0 where
  warning : String → LogLine
  failure : String → String → LogLine

-- `[id] METHOD url -> status code`
abbrev request_line : Option String → String → String → String → String → String
request_line request_id method url status code =
    "["
    ++ Option.get_or request_id "-"
    ++ "] "
    ++ method
    ++ " "
    ++ url
    ++ " -> "
    ++ status
    ++ " "
    ++ code

-- What the filter logs of a request with this id, method and URL: the stack only of a server error,
-- whose message the client does not get.
unfoldable pub exception_line :
    Option String → String → String → String → String → ResolvedError → LogLine
exception_line request_id method url status stack e =
    let line = request_line request_id method url status e.code in
    if leb 500 e.status then failure line stack else warning (line ++ ": " ++ e.message)

-- The failures, the masked address and the seconds.
abbrev pub lockout_line : String → String → LoginAttemptIdentity → String → LogLine
lockout_line failures masked identity seconds = warning (
    "Login locked after " ++ failures ++ " failed attempts: " ++ masked ++ " from " ++ identity.ip
    ++ " (tenant " ++ identity.tenant_id ++ "), " ++ seconds ++ "s")

abbrev pub reuse_line : StoredRefreshToken → LogLine
reuse_line stored = warning (
    "Refresh token reuse detected for user " ++ stored.user_id ++ "; revoking token family "
    ++ stored.family_id)
