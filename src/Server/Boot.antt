-- ===== src/Server/Boot.antt =====
-- cmd/server/main.go: what `main` does before the server listens. Of the lines that are logged, those
-- of `main` are modelled.
pub mod Ready
pub mod Complete
pub mod Keeps
pub mod Sample
mod Tests
use Prim.Native.String
use nexlog_server.Base.{ℕ, String, List, Option, none, some, true, if◌then◌else◌, ◌∷◌, [], ◌==◌}
use nexlog_server.Cache
use nexlog_server.Config.{Config, Env, Loaded, loaded, load}
use nexlog_server.Config
use nexlog_server.Int.{ℤ}
use nexlog_server.Text.{itoa}
use nexlog_server.Sql.{Db, Err}
use nexlog_server.Migrate.{DirEntry, Schema}
use nexlog_server.Migrate
use nexlog_server.Logger.{Log, no_log}
use nexlog_server.Logger
use nexlog_server.Middleware.Gzip.{GzipLib}
use nexlog_server.Handlers.Routes.{Static}
use nexlog_server.Pool.{Pool, Opened, opened, open_pool}
use nexlog_server.Pool
use nexlog_server.Middleware.RateLimit.{RateLib, RateLimiter, new_rate_limiter}
use nexlog_server.Repository.Tables.{Tables}
use nexlog_server.Service.Languages.{Texts}
use nexlog_server.Service.Seed.{seed_if_empty}
use nexlog_server.Handlers.{Packages, App, Disk}

-- What the process finds where it starts. `random` is what bcrypt draws for the hash of the default
-- password; `languages` is DefaultLanguages in the order of its iteration.
pub record Host : Type 1 where
  pub env : Env
  -- what runtime.NumCPU returns
  pub num_cpu : ℕ
  pub parse_duration : String → Option ℤ
  pub sql_open : String → Err
  pub read_dir : String → List DirEntry
  pub read_file : String → String × Err
  pub script : String → Tables → Option Tables
  pub random : ℕ
  pub languages : List (String × Texts)
  pub disk : Disk
  pub packages : Packages
  pub rate_lib : RateLib
  pub gzip_lib : GzipLib
  pub static : Static

-- The settings of the http.Server; the durations are nanoseconds.
pub record HttpServer : Type 0 where
  pub addr : String
  pub read_timeout : ℕ
  pub write_timeout : ℕ
  pub idle_timeout : ℕ
  pub read_header_timeout : ℕ

abbrev http_server : Config → HttpServer
http_server cfg = record {
  addr = String.◌++◌ ":" cfg.port;
  read_timeout = 10_000_000_000;
  write_timeout = 30_000_000_000;
  idle_timeout = 120_000_000_000;
  read_header_timeout = 5_000_000_000;
}

-- The server as it begins to listen.
pub record Server (host : Host) : Type 0 where
  pub config : Config
  pub log : Log
  -- the address of the profiler, none where it is off
  pub pprof : Option String
  pub http : HttpServer
  pub pool : Pool
  pub limiter : RateLimiter host.rate_lib
  pub app : App

-- `exited log` is os.Exit(1) after the last line of the log, `panicked` the call of a logger that
-- there is not yet.
pub data Started (host : Host) : Type 0 where
  panicked : Started host
  exited : Log → Started host
  listening : Server host → Started host

-- The part of the database that the repository uses, and back.
abbrev pub service_db : Db (Schema Tables) → Db Tables
service_db db = record {
  tables = db.tables.state;
  outcomes = db.outcomes;
  violation = db.violation;
  aborted = db.aborted;
}

abbrev pub with_service : Db (Schema Tables) → Db Tables → Db (Schema Tables)
with_service db d = record db {
  tables = record db.tables { state = d.tables };
  outcomes = d.outcomes;
}

-- logger.Error(message, "err", err); os.Exit(1)
abbrev pub exit_logged : {host : Host} → Option Log → Started host
exit_logged none = panicked
exit_logged (some log) = exited log

abbrev pub exit : {host : Host} → String → String → Log → Started host
exit message e log = exit_logged (Logger.error message ("err" ∷ e ∷ []) log)

module _ (host : Host) where
  abbrev pub server_of : Config → Log → Pool → Db Tables → Server host
  server_of cfg log pool db = record {
    config = cfg;
    log = log;
    pprof = if cfg.enable_pprof then some ":6060" else none;
    http = http_server cfg;
    pool = pool;
    limiter = new_rate_limiter cfg.rate_limit_per_min;
    app = record { cache = Cache.new 30_000_000_000; db = db; disk = host.disk };
  }

  abbrev pub after_seed :
      Config → Log → Pool → Db (Schema Tables) → Err × Db Tables → Started host × Db (Schema Tables)
  after_seed cfg log pool db (some e, d) = (exit "❌ Seed failed" e log, with_service db d)
  after_seed cfg log pool db (none, d) = (listening (server_of cfg log pool d), with_service db d)

  abbrev pub after_migrate :
      Config → Log → Pool → Err × Db (Schema Tables) → Started host × Db (Schema Tables)
  after_migrate cfg log pool (some e, db) = (exit "❌ Migration failed" e log, db)
  after_migrate cfg log pool (none, db) = after_seed cfg log pool db (
      seed_if_empty host.packages.codec (host.packages.hash_password host.random) host.languages
        (service_db db))

  abbrev pub after_pool :
      Config → Log → Opened × Db (Schema Tables) → Started host × Db (Schema Tables)
  after_pool cfg log (Pool.failed e, db) = (exit "❌ DB open failed" e log, db)
  after_pool cfg log (opened pool, db) =
      after_migrate cfg log pool
        (Migrate.run host.read_file host.script (host.read_dir cfg.migrations_dir) db)

  -- The line with GOMAXPROCS, and the rest of `main`.
  abbrev pub after_info :
      Config → Option Log → Db (Schema Tables) → Started host × Db (Schema Tables)
  after_info cfg none db = (panicked, db)
  after_info cfg (some log) db = after_pool cfg log (open_pool host.sql_open cfg db)

  abbrev pub after_load : Loaded → Db (Schema Tables) → Started host × Db (Schema Tables)
  after_load (Config.failed e) db = (exit "❌ Config error" e (Logger.init true no_log), db)
  after_load (loaded cfg) db =
      after_info cfg
        (Logger.info "🔧 Go runtime" ("GOMAXPROCS" ∷ itoa host.num_cpu ∷ [])
          (Logger.init cfg.is_dev no_log))
        db

  -- `main`, up to the goroutine that listens.
  unfoldable pub boot : Db (Schema Tables) → Started host × Db (Schema Tables)
  boot db = after_load (load host.parse_duration host.env) db
