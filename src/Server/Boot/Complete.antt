-- ===== src/Server/Boot/Complete.antt =====
-- That the server does listen.
use nexlog_server.Base.{◌≡◌, refl, sym, subst, [], none, some, All}
use nexlog_server.Config.{Config, loaded, load}
use nexlog_server.Logger.{Log}
use nexlog_server.Pool.{open_pool}
use nexlog_server.Pool
use nexlog_server.Sql.{Db, Err, exec}
use nexlog_server.Sql.Laws.{Fine}
use nexlog_server.Migrate.{Schema, collect_up_migrations}
use nexlog_server.Migrate.Progress.{pending, all_migrated}
use nexlog_server.Migrate.Complete.{run-Fine}
use nexlog_server.Repository.Tables.{Tables}
use nexlog_server.Service.Seed.Complete.{CanSeed, seed_if_empty_ok}
use nexlog_server.Server.Boot.{Host, Server, listening, service_db, after_seed, after_migrate, boot}

module _ (host : Host) (cfg : Config) (log : Log) where
  seed_listens :
      (pool : Pool.Pool) (db : Db (Schema Tables)) (result : Err × Db Tables)
      → result.0 ≡ none
      → (s : Server host) × ((after_seed host cfg log pool db result).0 ≡ listening s)
        × (s.config ≡ cfg)
  seed_listens pool db (none, d) ok = (_, refl, refl)
  seed_listens pool db (some e, d) ok = cc

  migrate_listens :
      (pool : Pool.Pool) (result : Err × Db (Schema Tables)) (t : Schema Tables)
      → Fine t result
      → CanSeed host.packages.codec (host.packages.hash_password host.random) host.languages t.state
      → (s : Server host) × ((after_migrate host cfg log pool result).0 ≡ listening s)
        × (s.config ≡ cfg)
  migrate_listens pool (some e, db) t (ok, same, fine) can = cc
  migrate_listens pool (none, db) t (ok, same, fine) can = seed_listens pool db _ (
      seed_if_empty_ok host.packages.codec (host.packages.hash_password host.random) host.languages
        (service_db db) fine
        (subst
          (λ x.
            CanSeed host.packages.codec (host.packages.hash_password host.random) host.languages
              x.state)
          (sym same) can))

module _ (host : Host) (cfg : Config) where
  -- The server listens where the configuration loads, the driver takes the address, the database
  -- answers, the directory and the migrations that are not recorded can be read, their scripts are
  -- accepted in their order, and the tables that they leave hold a site or take the default data.
  pub boot_listens :
      (db : Db (Schema Tables)) (t : Schema Tables)
      → load host.parse_duration host.env ≡ loaded cfg
      → host.sql_open cfg.database_url ≡ none
      → db.outcomes ≡ []
      → (collect_up_migrations (host.read_dir cfg.migrations_dir)).1 ≡ none
      → All
          (λ m. (host.read_file m.path).1 ≡ none)
          (pending db.tables.versions (collect_up_migrations (host.read_dir cfg.migrations_dir)).0)
      → all_migrated host.read_file host.script
          (pending db.tables.versions (collect_up_migrations (host.read_dir cfg.migrations_dir)).0)
          db.tables
        ≡ some t
      → CanSeed host.packages.codec (host.packages.hash_password host.random) host.languages t.state
      → (s : Server host) × ((boot host db).0 ≡ listening s) × (s.config ≡ cfg)
  unfolding boot open_pool exec
  boot_listens db t loads address fine collected readable accepted can =
      rw (loads, address, fine)
        (migrate_listens host cfg _ _ _ t
          (run-Fine host.read_file host.script (host.read_dir cfg.migrations_dir) _ t refl collected
            readable accepted)
          can)
