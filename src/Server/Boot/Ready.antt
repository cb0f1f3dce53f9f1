-- ===== src/Server/Boot/Ready.antt =====
-- When the server listens.
use Prim.Native.String.{len}
use nexlog_server.Base.{ℕ, ◌≤◌, String, ◌≡◌, refl, subst, sym, [], ◌∷◌, none, some}
use nexlog_server.Cache
use nexlog_server.Cache.Laws.{get-new}
use nexlog_server.Config.{Config, Loaded, loaded, load}
use nexlog_server.Config
use nexlog_server.Config.Laws.{load_iff, load_sound}
use nexlog_server.Middleware.RateLimit.{new_rate_limiter}
use nexlog_server.Logger.{Log, HasLogger, error-HasLogger}
use nexlog_server.Pool.{Opened, opened, open_pool}
use nexlog_server.Pool
use nexlog_server.Sql.{Db, Err}
use nexlog_server.Migrate.{Schema, collect_up_migrations}
use nexlog_server.Migrate.Progress.{pending}
use nexlog_server.Migrate.Rerun.{nothing_pending}
use nexlog_server.Repository.Tables.{Tables}
use nexlog_server.Service.Seed.Ready.{HasSite, HasSite-seed_if_empty}
use nexlog_server.Server.Boot.{
  Host, Server, Started, panicked, exited, listening, service_db, after_seed, after_migrate,
  after_pool, after_load, boot, exit, exit_logged,
}

module _ (host : Host) where
  -- The secret has at least 32 bytes, every migration of the directory is recorded, there is a site,
  -- the handlers work on that database and on the files of the host, the limiter has the configured
  -- rate and no visitors, and nothing is cached.
  pub record IsReady (s : Server host) (db : Db (Schema Tables)) : Type 0 where
    pub long_secret : 32 ≤ len s.config.jwt_secret
    pub migrated :
        pending db.tables.versions (collect_up_migrations (host.read_dir s.config.migrations_dir)).0
        ≡ []
    pub has_site : HasSite s.app.db.tables
    pub same_tables : s.app.db.tables ≡ db.tables.state
    pub logs : HasLogger s.log
    pub same_disk : s.app.disk ≡ host.disk
    pub new_limiter : s.limiter ≡ new_rate_limiter s.config.rate_limit_per_min
    pub empty_cache : (now : ℕ) (key : String) → Cache.get now key s.app.cache ≡ none

  -- No panic; what is left of the database where the process has exited is not promised here.
  abbrev pub ReadyIfListening : Started host × Db (Schema Tables) → Type 0
  ReadyIfListening (panicked, db) = ⊥
  ReadyIfListening (exited log, db) = Unit
  ReadyIfListening (listening s, db) = IsReady s db

  exit_ready :
      (message e : String) (log : Log) (db : Db (Schema Tables))
      → HasLogger log
      → ReadyIfListening (exit message e log, db)
  exit_ready message e log db logs =
      let (written, is, more) = error-HasLogger message ("err" ∷ e ∷ []) log logs in
      subst (λ w. ReadyIfListening (exit_logged w, db)) (sym is) tt

  module _ (cfg : Config) (long : 32 ≤ len cfg.jwt_secret) (log : Log) (logs : HasLogger log) where
    seed_ready :
        (pool : Pool.Pool) (db : Db (Schema Tables)) (result : Err × Db Tables)
        → pending db.tables.versions (collect_up_migrations (host.read_dir cfg.migrations_dir)).0
          ≡ []
        → (result.0 ≡ none → HasSite result.1.tables)
        → ReadyIfListening (after_seed host cfg log pool db result)
    seed_ready pool db (some e, d) migrated site = exit_ready _ e log _ logs
    seed_ready pool db (none, d) migrated site = record {
      long_secret = long;
      migrated = migrated;
      has_site = site refl;
      same_tables = refl;
      logs = logs;
      same_disk = refl;
      new_limiter = refl;
      empty_cache = get-new 30_000_000_000;
    }

    migrate_ready :
        (pool : Pool.Pool) (result : Err × Db (Schema Tables))
        → (result.0 ≡ none
            → pending result.1.tables.versions
                (collect_up_migrations (host.read_dir cfg.migrations_dir)).0
              ≡ [])
        → ReadyIfListening (after_migrate host cfg log pool result)
    migrate_ready pool (some e, db) migrated = exit_ready _ e log db logs
    migrate_ready pool (none, db) migrated = seed_ready pool db _ (migrated refl) (
        HasSite-seed_if_empty host.packages.codec (host.packages.hash_password host.random)
          host.languages (service_db db))

    pool_ready :
        (result : Opened × Db (Schema Tables)) → ReadyIfListening (after_pool host cfg log result)
    pool_ready (Pool.failed e, db) = exit_ready _ e log db logs
    pool_ready (opened pool, db) =
        migrate_ready pool _
          (nothing_pending host.read_file host.script (host.read_dir cfg.migrations_dir) db)

  load_ready :
      (l : Loaded) (db : Db (Schema Tables))
      → ((cfg : Config) → l ≡ loaded cfg → 32 ≤ len cfg.jwt_secret)
      → ReadyIfListening (after_load host l db)
  load_ready (Config.failed e) db long = tt
  load_ready (loaded cfg) db long = pool_ready cfg (long cfg refl) _ (_, refl) _

  boot_ready : (db : Db (Schema Tables)) → ReadyIfListening (boot host db)
  unfolding boot
  boot_ready db = load_ready (load host.parse_duration host.env) db λ cfg h.
      let sound = load_sound host.parse_duration host.env cfg h in
      rw sound.0 ((load_iff host.parse_duration host.env).0 (cfg, h)).0

  -- Whatever the environment, the files and the outcomes of the calls of the database: if the server
  -- listens, its secret has at least 32 bytes, every migration of the directory is recorded, there is
  -- a site in the tables that the handlers read, and nothing is cached.
  pub boot-IsReady :
      (db : Db (Schema Tables)) (s : Server host)
      → (boot host db).0 ≡ listening s
      → IsReady s (boot host db).1
  boot-IsReady db s listens =
      subst (λ started. ReadyIfListening (started, (boot host db).1)) listens (boot_ready db)
