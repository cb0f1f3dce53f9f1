-- ===== src/Lib.antt =====
-- Verification library of the NexLog server, a Go program that serves the content of a company's
-- site from PostgreSQL and lets an administrator change it.
--
-- How the program's parts interact, and which file models which:
--
-- - A request passes the rate limiter, CORS, the security headers and gzip (internal/middleware)
--   before it reaches the routes of internal/handlers, which guard the administrator's routes by
--   `Auth`. The handlers read through internal/cache and call internal/service, whose methods call
--   internal/repository under a time limit. configs/config.go and internal/migrate run before the
--   server starts.
-- - Base, GoMap, Int, Text: shared names, Go's maps, its `int`, and its functions on texts and paths.
-- - Http: net/http. A handler is a function of the request and a state; it returns its calls of the
--   ResponseWriter, in order, and the new state. `respond` is the server's reading of the calls, with
--   the limit that a Content-Length sets to the body.
--   Http/Laws and Http/Untouched read the response off the calls.
-- - Sql: database/sql. A statement is a function on the tables; what else can go wrong with a call
--   (a time limit, a lost connection, a refusal) is a list of outcomes that the state carries, so that
--   a theorem for every such state is one for every failure. A lost answer may be that of a
--   statement that took effect. Sql/Laws: transactions.
-- - Json: the values of encoding/json that the program stores and reads. Json/Maps: Go's maps among
--   them, and what the codec keeps; Json/Sample: a concrete codec.
-- - Cache: internal/cache/cache.go (New, Set, Get, Flush, evict). The clock's readings are arguments.
--   A call runs under the lock, and so is one step. Cache/History: the specification.
-- - Middleware/Auth, Cors, Security, Gzip, RateLimit: internal/middleware/auth.go, cors.go,
--   security.go and ratelimit.go. The limiter's map holds places of a store, as the pointers of the
--   source do: getLimiter runs under the lock, Allow after it. RateLimit/View and
--   RateLimit/Requests: the specification, one bucket for each IP; RateLimit/Zero: a burst of 0.
--   Cors/Origins: what a list allows.
-- - Config: configs/config.go (Load, Validate, getEnv, getInt, getDuration, joinErrs).
-- - Window, Window/Serve: the limiter and the handlers of cmd/server/middleware.go, which the server
--   does not use.
-- - Migrate: internal/migrate/migrate.go (Run, collectUpMigrations, applyOne). Migrate/Order,
--   Migrate/Progress, Migrate/Rerun and Migrate/Complete: what is collected, what a run applies, a
--   second run, and a run where nothing goes wrong. Migrate/Concurrent: several runs at once.
-- - Pool, Logger: internal/db/db.go (Open) and internal/logger/logger.go, whose state is the variable
--   L and the lines that were written.
-- - Server: the stack that cmd/server/main.go builds. Server/Safety, Server/Headers: what a request
--   and a response of the whole stack can do; Server/FirstBoot: the seed and a login. Server/Boot:
--   the steps of `main` until the server listens; Server/Life: the requests from then on;
--   Server/History: what they do to the tables; Server/Settled and Server/Eras: what any number of
--   runs keep of the database; Server/Kinds: what the cache holds and the handlers answer with;
--   Server/Files: what becomes of the uploaded files; Server/Starved: what a RATE_LIMIT_PER_MIN below
--   4 does.
-- - Server/Shutdown: the process from signal.Notify on, with its goroutines, signals and requests;
--   Shutdown/Steps: the steps; Shutdown/Graceful, Served, Ends and Hang: how it ends, what it has
--   served, that it can end, and what becomes of it where ListenAndServe fails.
-- - Repository/Models, Tables, Reads, Writes: internal/repository/repository.go, over the tables of
--   migrations/0001_init.up.sql. Repository/Order and Repository/Languages: what a read returns of
--   what a write stored; Languages/Listing: in whatever order the languages are met.
--   Repository/WellFormed: what the tables are to be like beyond their types.
-- - Service, Service/Seed: internal/service/service.go; Service/Languages:
--   internal/service/languages.go. Go's order of iteration over the languages is the order of a
--   list that is an argument. Service/Seed/Atomic, Extends, Ready, Default,
--   Complete, Sound and Invariant: what a seed leaves.
-- - Handlers/Public, Login, Upload, Admin, Routes: internal/handlers/handlers.go. `App` is the state
--   behind the handlers: the cache, the database and the upload directory.
-- - Handlers/Interleaving: Content and adminPUT step by step, any number of requests at once.
--   Interleaving/Shown, Fresh and Stale: what the cache shows, when it is up to date, and when not;
--   Public/Freshness, Public/Languages: what is shown after a change; Public/Outage: while the
--   database fails.
--   Upload/Laws, Upload/Names: what an upload writes. Routes/Effects: what a request does to the
--   tables; Routes/Files: to the uploaded files; Kinds, Routes/Kinds: what is under each key of the
--   cache.
-- - Samples and the modules named Tests: concrete packages and runs.
--
-- What is not part of the program is a parameter: golang-jwt (`Jwt`, with `IsJwt` and `IsIssuer` as
-- its documented behaviour), bcrypt and the decoders (`Packages`, `IsBcrypt`), the compressor
-- (`GzipLib`, `IsGzip`), the token bucket (`RateLib`, `RefusesAtZero`), the file servers (`Static`),
-- the JSON codec and the type JSONB (`Codec`, `IsCodec`), time.ParseDuration, the file system and the
-- effect of a migration's script.
--
-- Numbers: times are nanoseconds on ℕ, without an upper bound; an `int` that may be negative is a ℤ
-- of Int. No function takes fuel for its result except `digits_from`, which gets as much as the
-- number to print (Text/Decimal). SQL leaves the order of rows with equal keys open, and Go that of
-- a map: the model takes the order of insertion, and that of the listing.
--
-- net/http and os/signal take, in Server/Shutdown, the steps that they are documented to take: an
-- environment that chooses, at whatever times. A request runs as a whole there, and the requests of
-- Server/Life come one after the other.
--
-- Not modelled: how log/slog prints a line, and the lines that other parts than `main` write;
-- sockets, and what the profiler serves; two transactions of the repository that overlap; what
-- database/sql does with the limits of the pool; the pause before a refused login; and the
-- interleaving of requests within the other handlers (the limiter and the cache take calls in any
-- order).
pub mod Base
pub mod GoMap
pub mod Int
pub mod Samples
pub mod Text
pub mod Http
pub mod Middleware
pub mod Config
pub mod Window
pub mod Migrate
pub mod Sql
pub mod Json
pub mod Repository
pub mod Service
pub mod Handlers
pub mod Cache
pub mod Pool
pub mod Logger
pub mod Server
