-- ===== src/Tests/Errors.antt =====
-- The answer to an error that nobody expected.
use hotel_crm.Prelude.{◌≡◌, ◌≤◌, refl, arith, ◌⊎◌, some}
use hotel_crm.Platform.Results.{unexpected, HttpException, http, ok}
use hotel_crm.Http.Errors.{ErrorResponse, catch, internal_error, resolve_error}
use hotel_crm.Http.Hidden.{catch-hidden}
use hotel_crm.Tests.Worlds.{start}
use hotel_crm.Memory.Server.{Memory, memory}

abbrev answer : ErrorResponse
answer = record {
  http_status = 500;
  request_id_header = some "r";
  error = internal_error;
  timestamp = 0;
  request_id = some "r";
}

abbrev answered : Memory
answered = record start { reads = 1 }

catch_run : catch memory (some "r") (unexpected "secret") start ≡ (ok answer, answered)
unfolding catch resolve_error
catch_run = refl

server_error : 500 ≤ 500
server_error = omega arith

catch-hidden_example :
    (internal_error ≡ internal_error)
    ⊎ ((x : HttpException) × (unexpected "secret" ≡ http x) × (x.status ≡ 500))
catch-hidden_example =
    catch-hidden memory (some "r") (unexpected "secret") start answered answer catch_run
      server_error
