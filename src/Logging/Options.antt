-- ===== src/Logging/Options.antt =====
-- backend/src/config/logger.config.ts: the options that pino gets. Numbers in a message come as the
-- texts that a template makes of them.
use hotel_crm.Prelude.{String, Bool, Option, none, some, List, [], ◌∷◌, true, if◌then◌else◌, str_eq}
use Prim.Native.String.{◌++◌}
use mathlib.Core.Option

-- The options of pino-pretty.
pub record Transport : Type 0 where
  pub target : String
  pub colorize : Bool
  pub single_line : Bool
  pub translate_time : String
  pub ignore : String
  pub message_format : String

pub record Redact : Type 0 where
  pub paths : List String
  pub censor : String

pub record LoggerOptions : Type 0 where
  pub level : String
  pub transport : Option Transport
  pub custom_success_message : String → String → String → String → String
  pub custom_error_message : String → String → String → String
  pub redact : Redact

abbrev pretty : Transport
pretty = record {
  target = "pino-pretty";
  colorize = true;
  single_line = true;
  translate_time = "SYS:HH:MM:ss";
  ignore = "pid,hostname,context,req,res,responseTime";
  message_format = "{if context}[{context}] {end}{msg}";
}

abbrev redacted_paths : List String
redacted_paths =
    "req.headers.authorization" ∷ "req.headers.cookie" ∷ "req.body.password" ∷ "*.password"
    ∷ "*.passwordHash" ∷ "*.token" ∷ "*.accessToken" ∷ "*.email" ∷ "*.phone" ∷ []

-- The method, the URL, the status and the time.
abbrev error_message : String → String → String → String
error_message method url status = method ++ " " ++ url ++ " → " ++ status

abbrev success_message : String → String → String → String → String
success_message method url status time = error_message method url status ++ " (" ++ time ++ "ms)"

abbrev level_of : String → String
level_of node_env =
    if str_eq node_env "test"
    then "silent"
    else (if str_eq node_env "production" then "info" else "debug")

abbrev transport_of : String → Option Transport
transport_of node_env = if str_eq node_env "development" then some pretty else none

unfoldable pub build_logger_options : String → LoggerOptions
build_logger_options node_env = record {
  level = level_of node_env;
  transport = transport_of node_env;
  custom_success_message = success_message;
  custom_error_message = error_message;
  redact = record { paths = redacted_paths; censor = "***" };
}

-- The factory of LoggerModule, from `NODE_ENV` where it is set.
abbrev pub logger_options : Option String → LoggerOptions
logger_options node_env = build_logger_options (Option.get_or node_env "development")
