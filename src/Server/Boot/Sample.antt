-- ===== src/Server/Boot/Sample.antt =====
-- A host for the tests, and the server that listens on it.
use nexlog_server.Base.{◌≡◌, refl, [], ◌∷◌, none, some, false, if◌then◌else◌, ◌==◌}
use nexlog_server.Int.{pos}
use nexlog_server.Config.{Config, Env, load, get_env, get_int, get_duration}
use nexlog_server.Sql.{Db, exec, query, query_row, begin, tx_exec, commit}
use nexlog_server.Logger.{Log, no_log, json, level_info, init}
use nexlog_server.Text.{itoa, digits_from}
use nexlog_server.Pool.{pool_of, open_pool}
use nexlog_server.Migrate.{Schema, collect_up_migrations, has_version, run, apply_one, run_files}
use nexlog_server.Repository.Tables.{Tables, has_code}
use nexlog_server.Repository.Writes.{insert_language}
use nexlog_server.Service.Languages.{default_languages}
use nexlog_server.Service.Seed.{seed_if_empty}
use nexlog_server.Samples.{plain_packages, draining, copying, no_files, some_app}
use nexlog_server.Service.Seed.Default.{no_rows}
use nexlog_server.Server.Boot.{Host, Server, listening, server_of, service_db, boot}

abbrev pub some_env : Env
some_env key =
    if key == "JWT_SECRET"
    then "0123456789abcdef0123456789abcdef"
    else if key == "DATABASE_URL"
    then "postgres://localhost"
    else ""

abbrev pub some_host : Host
some_host = record {
  env = some_env;
  num_cpu = 4;
  parse_duration = λ s. none;
  sql_open = λ url. none;
  read_dir =
      λ dir. record { path = "migrations/0001_init.up.sql"; is_dir = false; problem = none } ∷ [];
  read_file = λ path. ("CREATE TABLE site", none);
  script = λ text t. some t;
  random = 4;
  languages = default_languages;
  disk = some_app.disk;
  packages = plain_packages;
  rate_lib = draining;
  gzip_lib = copying;
  static = no_files;
}

abbrev pub new_db : Db (Schema Tables)
new_db = record {
  tables = record { state = no_rows; versions = [] };
  outcomes = [];
  violation = "duplicate key";
  aborted = "current transaction is aborted";
}

abbrev pub booted : Config
booted = record {
  port = "3000";
  public_dir = "./public";
  upload_dir = "./public/uploads";
  is_dev = false;
  database_url = "postgres://localhost";
  db_max_open = pos 50;
  db_max_idle = pos 25;
  db_conn_lifetime = pos 3_600_000_000_000;
  migrations_dir = "./migrations";
  jwt_secret = "0123456789abcdef0123456789abcdef";
  rate_limit_per_min = pos 120;
  allowed_origins = "";
  enable_pprof = false;
}

-- What `main` has logged by then.
abbrev pub boot_log : Log
boot_log = record (init false no_log) {
  lines =
      record {
        format = json;
        level = level_info;
        message = "🔧 Go runtime";
        args = "GOMAXPROCS" ∷ "4" ∷ [];
      }
      ∷ [];
}

-- The server that listens on that host.
abbrev pub some_server : Server some_host
some_server =
    server_of some_host booted boot_log (pool_of booted)
      (seed_if_empty plain_packages.codec (plain_packages.hash_password 4) default_languages
        (service_db new_db)).1

pub some_server_boots : (boot some_host new_db).0 ≡ listening some_server
unfolding boot load get_env get_int get_duration itoa digits_from open_pool exec query query_row
    begin tx_exec commit run collect_up_migrations apply_one has_version run_files seed_if_empty
    default_languages insert_language has_code
some_server_boots = refl
