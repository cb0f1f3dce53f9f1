-- ===== src/Server/Boot/Tests.antt =====
-- The boot on a concrete host.
use Prim.Native.String.{len}
use nexlog_server.Service.Seed.Ready.{HasSite}
use nexlog_server.Server.Life.{Event, request, clean_limiter, evict_cache, live, live-Unwritten}
use nexlog_server.Base.{List, ◌≤◌, ◌≡◌, refl, [], ◌∷◌, inr}
use nexlog_server.Int.{pos}
use nexlog_server.Config.{load, get_env, get_int, get_duration}
use nexlog_server.Migrate.{collect_up_migrations, has_version}
use nexlog_server.Migrate.Progress.{pending, all_migrated}
use nexlog_server.Repository.Tables.{has_code}
use nexlog_server.Repository.Writes.{insert_language}
use nexlog_server.Service.Languages.{default_languages}
use nexlog_server.Service.Seed.{statements}
use nexlog_server.Service.Seed.Atomic.{all_made}
use nexlog_server.Samples.{put_site, anonymous, plain_jwt-IsJwt}
use nexlog_server.Service.Seed.Default.{no_rows}
use nexlog_server.Server.Boot.{Server, listening, boot}
use nexlog_server.Server.Boot.Sample.{some_host, new_db, booted, some_server, some_server_boots}
use nexlog_server.Server.Boot.Ready.{IsReady, boot-IsReady}
use nexlog_server.Server.Boot.Complete.{boot_listens}

boot-IsReady_example : IsReady some_host some_server (boot some_host new_db).1
boot-IsReady_example = boot-IsReady some_host new_db some_server some_server_boots

boot_listens_example :
    (s : Server some_host) × ((boot some_host new_db).0 ≡ listening s) × (s.config ≡ booted)
unfolding load get_env get_int get_duration collect_up_migrations pending has_version all_migrated
    all_made default_languages insert_language has_code statements
boot_listens_example =
    boot_listens some_host booted new_db (record { state = no_rows; versions = pos 1 ∷ [] }) refl
      refl refl refl (refl, tt) refl (inr (refl, (_, refl)))

-- A change without a token, a tick of each goroutine, and another such request.
abbrev some_events : List Event
some_events = request put_site ∷ clean_limiter 10 ∷ evict_cache 20 ∷ request put_site ∷ []

live-Unwritten_example :
    (32 ≤ len some_server.config.jwt_secret)
    × ((live some_host some_server some_events).app.db.tables
        ≡ (boot some_host new_db).1.tables.state)
    × HasSite (live some_host some_server some_events).app.db.tables
    × ((live some_host some_server some_events).app.disk ≡ some_server.app.disk)
live-Unwritten_example =
    live-Unwritten some_host new_db some_server some_events plain_jwt-IsJwt some_server_boots
      (anonymous _, (tt, (tt, (anonymous _, tt))))
