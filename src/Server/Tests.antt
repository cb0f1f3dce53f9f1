-- ===== src/Server/Tests.antt =====
-- The whole stack at a concrete request.
use nexlog_server.Base.{String, ◌≡◌, refl, false, All, some}
use nexlog_server.Http.{Request, respond}
use nexlog_server.Middleware.Security.Laws.{promised}
use nexlog_server.Handlers.Routes.Headers.{StaticKeeps}
use nexlog_server.Server.Headers.{inner-promised}
use nexlog_server.Service.Languages.{default_languages}
use nexlog_server.Service.Seed.{seed_if_empty}
use nexlog_server.Handlers.{token, write_json}
use nexlog_server.Handlers.Login.{issued, login}
use nexlog_server.Server.FirstBoot.{TakesDefaults, empty_db, login-seed_if_empty}
use nexlog_server.Int.{pos}
use nexlog_server.Config.{Config}
use nexlog_server.Samples.{
  plain_packages, no_files, put_site, copying, some_app, no_header, request_of,
  plain_packages-IsBcrypt,
}
use nexlog_server.Server.{inner}

abbrev some_config : Config
some_config = record {
  port = "3000";
  public_dir = "./public";
  upload_dir = "./public/uploads";
  is_dev = false;
  database_url = "postgres://localhost";
  db_max_open = pos 50;
  db_max_idle = pos 25;
  db_conn_lifetime = pos 3_600_000_000_000;
  migrations_dir = "./migrations";
  jwt_secret = "key";
  rate_limit_per_min = pos 120;
  allowed_origins = "";
  enable_pprof = false;
}

abbrev first_login : Request
first_login = request_of "POST" "/api/admin/login" no_header "password" 6

abbrev first_hash : String
first_hash = "$2a$10$----------------------------------------------------password"

plain_packages-TakesDefaults : TakesDefaults plain_packages.codec default_languages
unfolding default_languages
plain_packages-TakesDefaults = (
  ((_, refl), ((_, refl), ((_, refl), ((_, refl), ((_, refl), tt))))),
  (_, refl),
  (
    (refl, (refl, (refl, (refl, tt)))),
    ((refl, (refl, (refl, tt))), ((refl, (refl, tt)), ((refl, tt), (tt, tt)))),
  ),
)

login-seed_if_empty_example :
    (login plain_packages "key" first_login (record some_app {
      db =
          (seed_if_empty plain_packages.codec
            (plain_packages.hash_password 7)
            default_languages
            (empty_db plain_packages 7 "duplicate key" "aborted" default_languages)).1;
    })).0
    ≡ write_json plain_packages 200 (token (issued plain_packages "key" first_login))
login-seed_if_empty_example =
    login-seed_if_empty plain_packages 7 "duplicate key" "aborted" default_languages "key"
      first_hash first_login some_app plain_packages-TakesDefaults plain_packages-IsBcrypt refl refl
      refl

no_files-StaticKeeps : (k v : String) → StaticKeeps k v no_files
no_files-StaticKeeps k v = record {
  file = λ name r disk. tt;
  files = λ r disk. tt;
  uploads = λ r disk. tt;
  redirects = λ path r. tt;
  missing = λ r. tt;
}

inner-promised_example :
    All
      (λ e.
        (respond (inner copying plain_packages no_files some_config put_site some_app).0).header e.0
        ≡ some e.1)
      promised
inner-promised_example =
    inner-promised copying plain_packages no_files some_config put_site some_app (λ e. cc)
      (
        no_files-StaticKeeps _ _,
        (
          no_files-StaticKeeps _ _,
          (
            no_files-StaticKeeps _ _,
            (no_files-StaticKeeps _ _, (no_files-StaticKeeps _ _, (no_files-StaticKeeps _ _, tt))),
          ),
        ),
      )
