-- ===== src/Platform.antt =====
-- What the application runs on and does not implement: Prisma over PostgreSQL, Redis, JSON web
-- tokens, bcrypt, SHA-256, the clock and the source of random UUIDs, each an operation with what
-- is documented of it; and the state that a request changes.
pub mod Moves
pub mod Results
pub mod Tables
pub mod JsonWebToken
pub mod RedisServer
use hotel_crm.Prelude.{ℕ, ◌+◌, ◌≡◌, true, false, Bool, String, Option, none, some}
use hotel_crm.Config.{Env}
use hotel_crm.Schema.{UserRow, TokenRow}
use Results.{Outcome, ok, err, Action}
use Tables.{Table}
use JsonWebToken.{Jwt}
use RedisServer.{Redis}

-- `U`, `T` and `R` are the states of the two tables and of the Redis server; `K` is the text of a
-- signed token, which the application only passes on.
pub record Platform (U T R K : Type 0) : Type 0 where
  pub env : Env
  pub users : Table U UserRow
  pub tokens : Table T TokenRow
  pub redis : Redis R
  pub jwt : Jwt K
  pub sha256 : K → String
  -- `bcrypt.hash(password, rounds)` with the salt that is drawn at random, and `bcrypt.compare`.
  pub bcrypt_hash : String → ℕ → String → String
  pub bcrypt_compare : String → String → Bool
  pub compare-hash :
      (salt : String) (rounds : ℕ) (password : String)
      → bcrypt_compare password (bcrypt_hash salt rounds password) ≡ true
  -- A text as a value of the column type `uuid`: its canonical spelling, or the error of the
  -- query that sends it.
  pub to_uuid : String → Outcome String
  pub to_uuid_canonical : (s u : String) → to_uuid s ≡ ok u → to_uuid u ≡ ok u
  -- The order of the column type `uuid`.
  pub uuid_before : String → String → Bool
  pub uuid_before-asym : (s t : String) → uuid_before s t ≡ true → uuid_before t s ≡ false
  pub uuid_before-trans :
      (s t u : String) → uuid_before s t ≡ true → uuid_before t u ≡ true → uuid_before s u ≡ true
  pub uuid_before_total : (s t : String) → uuid_before s t ≡ false → uuid_before t s ≡ false → s ≡ t
  -- `toLowerCase` of a text, by the tables of Unicode.
  pub lowercase : String → String
  -- The n-th reading of the clock, in milliseconds, and the n-th random UUID.
  pub clock : ℕ → ℕ
  pub random_uuid : ℕ → String
  pub random_uuid_canonical : (n : ℕ) → to_uuid (random_uuid n) ≡ ok (random_uuid n)

-- What outlives a request, with how often the clock was read and a UUID drawn.
pub record World (U T R : Type 0) : Type 0 where
  pub users : U
  pub tokens : T
  pub redis : R
  pub reads : ℕ
  pub drawn : ℕ

module _ {U T R K : Type 0} (p : Platform U T R K) where
  -- `Date.now()`, and `new Date()`.
  abbrev pub now : Action (World U T R) ℕ
  now w = (ok (p.clock w.reads), record w { reads = w.reads + 1 })

  -- `randomUUID()`, and the default of an `id` column.
  abbrev pub draw : Action (World U T R) String
  draw w = (ok (p.random_uuid w.drawn), record w { drawn = w.drawn + 1 })

  abbrev pub as_uuid : String → Action (World U T R) String
  as_uuid s w = (p.to_uuid s, w)
