-- ===== src/Lib.antt =====
-- Parcel Delivery API: a verification library beside the FastAPI service in app/.
--
-- The service registers users and gives them a short-lived JWT and a refresh token in a cookie; users
-- (or, in the older mode, sessions) register parcels and read their own ones; a scheduled job prices
-- the parcels that have no delivery cost, with the day's exchange rate. Handlers in app/api call the
-- services of app/services, which read and commit through SQLAlchemy; the job of app/tasks shares the
-- database with them, and uses Redis for its lock, its metadata and the rate.
--
-- How code becomes definitions. A coroutine is an action on the state that it shares, which returns a
-- result or a failure and the state after it (Core/Action); what was committed before a raise stays
-- committed. Times are seconds; times and random values (uuid4, token_urlsafe, salts) are arguments.
-- Parameters stand for the code that is not of this repository, with what the code relies on as laws:
-- the database engine (Db/Sql, and Db/Ddl for its DDL), bcrypt, PyJWT and sha256 (Core/Crypto), Redis (Tasks/Redis), the text
-- form of decimals (Tasks/Rates), JSON (Api/Cache), the strategy of `limits` (Api/RateLimit) and
-- Pydantic (Schemas/Parcel). Tests/ has an instance of each.
--
-- The files:
--   Base, Base/*          shared names, Boolean tests, lists, and lists of rows
--   Core/Settings         app/core/settings.py
--   Core/Exceptions       app/core/exceptions.py
--   Core/Security, Text   app/core/security.py; Text is str.split, str.join and `issubset` of scopes
--   Core/Uuid             the texts that Python's UUID accepts, and `str` of a UUID
--   Core/Decimal          Python's decimal arithmetic as far as the price formula uses it
--   Db/*, Models/*        the engine, the insertion of a row under its constraints, app/models
--   Schemas/Parcel, Auth  the constraints of app/schemas/parcel.py and auth.py, and of the pagination of
--                         common.py
--   Services/Auth         app/services/auth.py: register, login, refresh, logout, logout_all; below it
--                         Requests are histories of requests, Race is two overlapping refreshes
--   Services/Parcel       app/services/parcel.py: create_from_dto, get_owned, list_owned,
--                         set_delivery_cost, and _commit of app/services/base.py; Spec is what they
--                         promise, on bags of rows
--   Services/ParcelType   app/services/parcel_type.py
--   Services/Base         the generic helpers of app/services/base.py
--   Tasks/Rates           app/services/rates.py
--   Tasks/Delivery        app/tasks/delivery.py and the handler of app/tasks/routes.py; below it Runs
--                         is a run from end to end, Overlap is runs at the same time, Bounds the size
--                         of the prices
--   Tasks/Scheduler       app/tasks/scheduler.py: when the job is due
--   Api/Http, Deps        app/api/deps.py; `limit` is what the rate limiter's answer decides
--   Api/RateLimit         app/core/rate_limit.py
--   Api/Errors            app/api/errors.py
--   Api/Auth              app/api/auth.py: guards, cookies, handlers
--   Api/Cache             app/core/cache.py
--   Api/Cached            the two cached routes of app/api/parcel.py: guard, rate limit, cache, handler
--   Api/Parcel            the handlers of app/api/parcel.py and app/api/parcel_type.py
--   Api/Calls, Application  app/main.py: a request of each route from its dependency to the reply;
--                         Api/Documented is the `responses` of the routes with app/api/examples.py
--   Api/Routes, OpenApi   the routes of app/main.py with their guards, and app/core/openapi.py
--   Migrations            alembic/versions and the commands that run them; Seed is the rows of the seed,
--                         Layout compares the tables with Models/Metadata, the declarations of
--                         app/models
--   RedisClient           app/redis_client/client.py
--   Middlewares/Session   app/middlewares/session.py and its installation in app/main.py
--   Tests                 the theorems at concrete inputs
--
-- Fuel: only the loop of the job has any (`price_loop`). One round is one batch; more rounds than there
-- are unpriced parcels are enough, since a round that commits prices at least one of them; the
-- scheduled job (`scheduled_run`) is given that many, and so is the manual
-- trigger (`answer`).
--
-- Not modelled: log lines, metrics and Sentry; what FastAPI generates of the documentation; the lengths
-- of the String columns of users and refresh tokens; collations of comparisons (a comparison of texts in
-- SQL is exact; ORDER BY goes by the collation of the engine); the counters of the rate limiter in the
-- state of a request (its verdict is an argument, Api/RateLimit has the counters); a price written to a
-- parcel that is not stored; the starting and stopping of
-- the scheduler; Pydantic's validation but for parcels, pagination and credentials. Requests run one after another,
-- but for Services/Auth/Race, Tasks/Delivery/Overlap and RedisClient.
pub mod Base
pub mod Core
pub mod Db
pub mod Middlewares
pub mod Migrations
pub mod RedisClient
pub mod Schemas
pub mod Models
pub mod Services
pub mod Tasks
pub mod Api
mod Tests
