-- ===== src/Config/Validation.antt =====
-- backend/src/config/env.validation.ts: what the process's environment must be for the application
-- to start.
use hotel_crm.Prelude.{
  ℕ, ◌≡◌, ◌<◌, String, Bool, true, false, ◌&&◌, ◌||◌, Option, none, some, List, [], ◌∷◌, leb, ◌==◌,
  str_eq, if◌then◌else◌,
}
use Prim.Native.Char.{code}
use Prim.Native.String.{◌++◌}
use hotel_crm.Config.{Env}
use hotel_crm.Config.Schemas.{Issue, Parsed, parsed, failed, ◌<*>◌}
use hotel_crm.Platform.Results.{Outcome, ok, err, unexpected}

-- The schemas of zod that have no text of their own in the source.
pub record Zod : Type 0 where
  -- `z.coerce.number().int().positive()`
  pub number : String → Option ℕ
  pub number-pos : (s : String) (n : ℕ) → number s ≡ some n → 0 < n
  pub number_message : String → String
  -- The length that `min` compares, and its own message.
  pub length : String → ℕ
  pub too_short : String
  -- Where a variable is not set, or is none of an `enum`.
  pub required : String
  pub not_listed : String → String

abbrev pub refused : {A : Type 0} → String → String → Parsed A
refused variable message = failed (record { variable = variable; message = message } ∷ [])

abbrev pub has_prefix : String → String → Bool
has_prefix String.[] s = true
has_prefix (String.◌∷◌ c p) String.[] = false
has_prefix (String.◌∷◌ c p) (String.◌∷◌ d s) = (code c == code d) && has_prefix p s

-- /^postgres(ql)?:\/\//
abbrev pub is_postgres : String → Bool
is_postgres s = has_prefix "postgres://" s || has_prefix "postgresql://" s

abbrev issue_line : Issue → String
issue_line issue = "  • " ++ (issue.variable ++ (": " ++ issue.message))

abbrev joined : List Issue → String
joined [] = ""
joined (issue ∷ []) = issue_line issue
joined (issue ∷ next ∷ rest) = issue_line issue ++ ("\n" ++ joined (next ∷ rest))

abbrev pub or_throw : Parsed Env → Outcome Env
or_throw (parsed env) = ok env
or_throw (failed issues) = err (unexpected ("Invalid environment variables:\n" ++ joined issues))

module _ (z : Zod) where
  abbrev checked : String → Bool → String → String → Parsed String
  checked variable good message s = if good then parsed s else refused variable message

  abbrev pub node_env : Option String → Parsed String
  node_env none = parsed "development"
  node_env (some s) =
      checked "NODE_ENV" (str_eq s "development" || (str_eq s "production" || str_eq s "test"))
        (z.not_listed s) s

  abbrev number_of : String → Option ℕ → String → Parsed ℕ
  number_of variable none s = refused variable (z.number_message s)
  number_of variable (some n) s = parsed n

  abbrev pub positive_int : String → ℕ → Option String → Parsed ℕ
  positive_int variable default_ none = parsed default_
  positive_int variable default_ (some s) = number_of variable (z.number s) s

  abbrev database_url : String → String → Parsed String
  database_url variable s =
      checked variable (is_postgres s) "must be a postgres:// connection string" s

  abbrev required_text : String → (String → Parsed String) → Option String → Parsed String
  required_text variable schema none = refused variable z.required
  required_text variable schema (some s) = schema s

  abbrev as_option : Parsed String → Parsed (Option String)
  as_option (parsed s) = parsed (some s)
  as_option (failed xs) = failed xs

  abbrev direct_url : Option String → Parsed (Option String)
  direct_url none = parsed none
  direct_url (some s) = as_option (database_url "DIRECT_DATABASE_URL" s)

  abbrev pub secret : String → Option String → Parsed String
  secret variable o =
      required_text variable
        (λ s. checked variable (leb 16 (z.length s)) "must be at least 16 characters" s) o

  abbrev lifetime : String → String → Option String → Parsed String
  lifetime variable default_ none = parsed default_
  lifetime variable default_ (some s) = checked variable (leb 1 (z.length s)) z.too_short s

  abbrev redis_url : Option String → Parsed String
  redis_url o =
      required_text "REDIS_URL"
        (λ s.
          checked "REDIS_URL" (has_prefix "redis://" s) "must be a redis:// connection string" s)
        o

  -- The members that the application does not read through `Env` are checked all the same.
  abbrev pub env_of :
      String → ℕ → String → Option String → String → String → String → String → String → ℕ → ℕ → Env
  env_of node port database direct jwt jwt_lifetime refresh refresh_lifetime redis attempts
        seconds =
      record {
        jwt_secret = jwt;
        jwt_expires_in = jwt_lifetime;
        jwt_refresh_secret = refresh;
        jwt_refresh_expires_in = refresh_lifetime;
        login_max_attempts = attempts;
        login_lockout_seconds = seconds;
      }

  -- `envSchema.safeParse`, of the variables of the process.
  unfoldable pub env_schema : (String → Option String) → Parsed Env
  env_schema raw =
      parsed env_of
      <*> node_env (raw "NODE_ENV")
      <*> positive_int "PORT" 3000 (raw "PORT")
      <*> required_text "DATABASE_URL" (database_url "DATABASE_URL") (raw "DATABASE_URL")
      <*> direct_url (raw "DIRECT_DATABASE_URL")
      <*> secret "JWT_SECRET" (raw "JWT_SECRET")
      <*> lifetime "JWT_EXPIRES_IN" "24h" (raw "JWT_EXPIRES_IN")
      <*> secret "JWT_REFRESH_SECRET" (raw "JWT_REFRESH_SECRET")
      <*> lifetime "JWT_REFRESH_EXPIRES_IN" "30d" (raw "JWT_REFRESH_EXPIRES_IN")
      <*> redis_url (raw "REDIS_URL")
      <*> positive_int "LOGIN_MAX_ATTEMPTS" 5 (raw "LOGIN_MAX_ATTEMPTS")
      <*> positive_int "LOGIN_LOCKOUT_SECONDS" 900 (raw "LOGIN_LOCKOUT_SECONDS")

  unfoldable pub validate_env : (String → Option String) → Outcome Env
  validate_env raw = or_throw (env_schema raw)
