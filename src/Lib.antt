-- ===== src/Lib.antt =====
-- The backend of hotel-crm, a CRM for hotels: a NestJS service over PostgreSQL and Redis in which
-- every hotel is a tenant. A request gets its tenant from a header, passes three guards, and runs
-- an operation of a service; a service works on the database through a repository, each function
-- of which is one transaction that PostgreSQL restricts to the rows of one tenant. The tables are
-- shared by all tenants, and the refresh tokens and the counters of failed logins are state that
-- concurrent requests change.
--
-- How the code is modelled. A method is an action: a function from the state (`World`: the two
-- tables, the Redis server, and how often the clock was read and a UUID drawn) to a value or an
-- exception, and the state it leaves. A transaction that throws leaves the tables as they were;
-- an action that throws between transactions keeps what was committed. Prisma over PostgreSQL,
-- Redis, JSON web tokens, Passport, bcrypt, SHA-256, `toLowerCase`, the clock and the source of
-- UUIDs are operations of a `Platform` with the laws that their documentation gives; `Memory`
-- meets all of these laws, and the theorems are run on it. Times are in milliseconds. Requests
-- that run at the same time are a sequence of transactions in the order in which they commit
-- (RefreshToken, Users); Api also serves whole requests one after the other.
--
-- Files, and the code that they are about:
--   Config            backend/src/config/env.validation.ts: Schemas, Validation, Startup
--   Schema            backend/prisma/schema.prisma
--   Platform          what the application runs on: Results (values, exceptions, actions), Moves
--                     (relations that actions follow), Tables (Prisma with row-level security),
--                     JsonWebToken, RedisServer
--   Tenant            backend/src/common/tenant/
--   RefreshToken      backend/src/auth/refresh-tokens.repository.ts (Repository) and
--                     refresh-token.service.ts (Service). Effects takes each transaction to a change
--                     of the rows, Unique, Revoked and Isolation are invariants of these changes,
--                     Steps gives the transactions as equations, Statements what each does row by
--                     row, and Consume, Once, Reuse, Issue, LogOut, Ending, Separate and RoundTrip
--                     are about the operations of the service, Idle is about what the transactions
--                     leave alone
--   Users             backend/src/users/: Types, Repository, Service; Effects takes each transaction
--                     to a change of the rows, Isolation is about sequences of them and Idle about
--                     what they leave alone; Rows, Update, Admins, Own and Written are about
--                     updates, Remain and Created about creation, Order, Pages and Listed about the
--                     list
--   Dto               backend/src/users/dto/, auth/dto/ and the pipes of main.ts: Validator (the
--                     libraries), Schemas (the classes with their decorators), Readers (the types of
--                     the properties), Pipes; Sound, Accepted, Refused and Undeclared are about what
--                     the pipes let through
--   LoginThrottle     backend/src/redis/redis.service.ts and auth/login-attempts.repository.ts
--                     (Counter), auth/login-throttle.service.ts (Service); Effects,
--                     Lockout, Separate, Started
--   Auth              backend/src/auth/permissions.ts (Permissions), guards/ and strategies/
--                     (Guards, Access, Refusals), auth.service.ts (Sessions, Login, Credentials,
--                     Fresh)
--   Http              backend/src/common/http/: Envelope (request ids, the envelope of a success),
--                     Errors (the exception filter), Hidden
--   Api               backend/src/app.module.ts and the controllers: Routes (decorators), Handlers,
--                     Pipeline (middleware, guards, pipes, handler, interceptor and filter);
--                     Covers has relations that hold across each step of a request; Steps and
--                     Footprint give such relations, and by Tokens, Accounts, Logins and Moved a
--                     whole request follows them; Served puts requests one after the other, and
--                     Kept, Admins, Ended, Once and LoggedOut are about that; Guarded and Listed
--                     are about single replies
--   Health            backend/src/health/ and `ping` of redis/redis.service.ts
--   Logging           backend/src/common/logging/mask-email.ts (Mask, Masked), config/logger.config.ts
--                     (Options), and the lines that are logged (Lines)
--   Seed              backend/prisma/seed.ts: Tables (Prisma's upsert), Script, Hotel; Keys, Facts,
--                     Rows, Accounts and Again are about running it twice
--   Memory, Tests     the platform in memory, and runs on it
--   Prelude           lists, tests of numbers and of texts
--
-- No loop of the code needs fuel: it loops over lists only. The digits of a number are taken off
-- with the number itself as fuel, which is more than it has digits. Numbers are natural numbers; the
-- code computes with times, counts and pages far below 2 ^ 53.
--
-- Not modelled: when log lines are written and what pino makes of its options, the connections of
-- Prisma and Redis and their failures, and the start of the server. The decorators of
-- class-validator and Nest's ValidationPipe and ParseUUIDPipe are parameters with their documented
-- laws. The two promises of `issueSession` are taken one after the other. The tables that
-- foreign keys refer to are not modelled: an insert may be refused for them at any time, and the
-- exception is then the table's.
mod Prelude
pub mod Config
pub mod Schema
pub mod Platform
pub mod Tenant
pub mod RefreshToken
mod Memory
pub mod LoginThrottle
pub mod Auth
pub mod Users
pub mod Dto
pub mod Http
pub mod Health
pub mod Logging
pub mod Seed
pub mod Api
mod Tests
