-- ===== src/Server/Starved/Tests.antt =====
-- A server with a limit of three requests a minute.
use nexlog_server.Base.{◌≡◌, refl, ap, List, [], ◌∷◌, arith, if◌then◌else◌, ◌==◌}
use nexlog_server.Http.{Request}
use nexlog_server.Int.{pos}
use nexlog_server.Text.{strip_prefix, atoi, digits_value, itoa, digits_from}
use nexlog_server.Config.{Config, load, get_env, get_int, get_duration}
use nexlog_server.Sql.{exec, query, query_row, begin, tx_exec, commit}
use nexlog_server.Pool.{pool_of, open_pool}
use nexlog_server.Migrate.{collect_up_migrations, has_version, run, apply_one, run_files}
use nexlog_server.Repository.Tables.{has_code}
use nexlog_server.Repository.Writes.{insert_language}
use nexlog_server.Service.Languages.{default_languages}
use nexlog_server.Service.Seed.{seed_if_empty}
use nexlog_server.Middleware.RateLimit.{limited}
use nexlog_server.Middleware.RateLimit.Zero.{RefusesAtZero}
use nexlog_server.Samples.{plain_packages, draining, request_of, no_header, draw}
use nexlog_server.Server.Boot.{Host, Server, listening, server_of, service_db, boot}
use nexlog_server.Server.Boot.Sample.{some_env, some_host, new_db, booted, boot_log}
use nexlog_server.Server.Life.{Event, request, clean_limiter, handler, live}
use nexlog_server.Server.Starved.{live-limited}

abbrev low_host : Host
low_host = record some_host {
  env = λ key. if key == "RATE_LIMIT_PER_MIN" then "3" else some_env key;
}

abbrev low_config : Config
low_config = record booted { rate_limit_per_min = pos 3 }

abbrev low_server : Server low_host
low_server =
    server_of low_host low_config boot_log (pool_of low_config)
      (seed_if_empty plain_packages.codec (plain_packages.hash_password 4) default_languages
        (service_db new_db)).1

low_server_boots : (boot low_host new_db).0 ≡ listening low_server
unfolding boot load get_env get_int get_duration atoi digits_value itoa digits_from open_pool exec
    query query_row begin tx_exec commit run collect_up_migrations apply_one has_version run_files
    seed_if_empty default_languages insert_language has_code
low_server_boots = refl

draining-RefusesAtZero : RefusesAtZero draining
draining-RefusesAtZero = record {
  IsZero = λ l. l ≡ 0;
  made = λ n. refl;
  refuses = λ now l empty. ap (λ k. (draw k).0) empty;
  kept = λ now l empty. ap (λ k. (draw k).1) empty;
}

abbrev some_login : Request
some_login = request_of "POST" "/api/login" no_header "{}" 900

abbrev some_requests : List Event
some_requests = request some_login ∷ clean_limiter 500 ∷ []

live-limited_example :
    let now = live low_host low_server some_requests in
    ((handler low_host now some_login (now.limiter, now.app)).0 ≡ limited)
    × ((handler low_host now some_login (now.limiter, now.app)).1.1 ≡ now.app)
unfolding strip_prefix
live-limited_example =
    live-limited low_host draining-RefusesAtZero new_db low_server some_requests some_login 3
      low_server_boots refl (omega arith) refl
