-- ===== src/Config/Tests.antt =====
-- The configuration of a concrete environment.
use nexlog_server.Base.{false, if◌then◌else◌, ◌==◌}
use nexlog_server.Int.{pos}
use nexlog_server.Config.{Config, Env}

abbrev some_env : Env
some_env key =
    if key == "JWT_SECRET"
    then "0123456789abcdef0123456789abcdef"
    else if key == "DATABASE_URL"
    then "postgres://localhost"
    else ""

abbrev some_config : Config
some_config = record {
  port = "3000";
  public_dir = "./public";
  upload_dir = "./public/uploads";
  is_dev = false;
  database_url = "postgres://localhost";
  db_max_open = pos 50;
  db_max_idle = pos 25;
  db_conn_lifetime = pos 3_600_000_000_000;
  migrations_dir = "./migrations";
  jwt_secret = "0123456789abcdef0123456789abcdef";
  rate_limit_per_min = pos 120;
  allowed_origins = "";
  enable_pprof = false;
}
