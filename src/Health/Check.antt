-- ===== src/Health/Check.antt =====
-- The health check. What the two connections, the file system and the process answer is given.
use hotel_crm.Prelude.{
  ℕ, String, Bool, true, false, ◌&&◌, Option, none, some, str_eq, if◌then◌else◌,
}
use hotel_crm.Platform.Results.{Outcome, ok, err}

pub data DependencyStatus : Type 0 where
  up down : DependencyStatus

pub data HealthStatus : Type 0 where
  healthy unhealthy : HealthStatus

-- What the outside answers: the query `SELECT 1`, the PING or else the time limit, whichever comes
-- first, the `version` of package.json, the seconds since the process started, and the time.
pub record Probes : Type 0 where
  pub query : Outcome (Unit {0})
  pub pong : Outcome String
  pub package_version : Outcome (Option String)
  pub uptime : ℕ
  pub timestamp : ℕ

pub record HealthCheckResult : Type 0 where
  pub status : HealthStatus
  pub uptime : ℕ
  pub version : String
  pub timestamp : ℕ
  pub postgres : DependencyStatus
  pub redis : DependencyStatus

-- `RedisService.ping`
unfoldable pub ping : Outcome String → Bool
ping (ok pong) = str_eq pong "PONG"
ping (err e) = false

unfoldable pub check_postgres : Outcome (Unit {0}) → Bool
check_postgres (ok tt) = true
check_postgres (err e) = false

unfoldable pub read_version : Outcome (Option String) → String
read_version (ok (some version)) = version
read_version (ok none) = "0.0.0"
read_version (err e) = "0.0.0"

abbrev pub dependency : Bool → DependencyStatus
dependency b = if b then up else down

unfoldable pub check : Probes → HealthCheckResult
unfolding ping check_postgres read_version
check probes = record {
  status = if check_postgres probes.query && ping probes.pong then healthy else unhealthy;
  uptime = probes.uptime;
  version = read_version probes.package_version;
  timestamp = probes.timestamp;
  postgres = dependency (check_postgres probes.query);
  redis = dependency (ping probes.pong);
}

-- `HealthController.check`: the status code.
unfoldable pub status_code : HealthStatus → ℕ
status_code healthy = 200
status_code unhealthy = 503
