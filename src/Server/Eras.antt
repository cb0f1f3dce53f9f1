-- ===== src/Server/Eras.antt =====
-- cmd/server/main.go: the database through any number of runs of the process, each with its own
-- configuration, files and requests.
mod Tests
use nexlog_server.Base.{
  All, some_injective, String, Option-cases, Bool-cases, ◌≡◌, refl, sym, ap, subst, ◌∙◌, List, [],
  ◌∷◌, Option, none, some, inl, inr, arith,
}
use nexlog_server.Config.{Config, Loaded, loaded, load}
use nexlog_server.Config
use nexlog_server.Logger
use nexlog_server.Logger.{Log, no_log}
use nexlog_server.Text.{itoa}
use nexlog_server.Http.{Request}
use nexlog_server.Pool.{
  open_pool-tables, Opened, opened, failed, open_pool, after_open, after_ping, ping,
}
use nexlog_server.Pool
use nexlog_server.Sql.{Db, Err, Outcome, exec}
use nexlog_server.Sql.Laws.{AllOrNothing, exec-AllOrNothing, and_then}
use nexlog_server.Migrate.{Migration, Schema, DirEntry, insert_version, has_version}
use nexlog_server.Int.{ℤ}
use nexlog_server.Migrate
use nexlog_server.Migrate.Progress.{all_migrated, migrated, run-Progress}
use nexlog_server.Middleware.Auth.Laws.{IsJwt}
use nexlog_server.Repository.Tables.{Tables, update_one}
use nexlog_server.Repository.Writes.Languages.{languages_made, languages_made_lem}
use nexlog_server.Json.{Fields}
use nexlog_server.Repository.WellFormed.{
  WellFormed, WellFormed-same, WellFormed-languages_made, WellFormedIfAny,
}
use nexlog_server.Handlers.{Packages, limited_body}
use nexlog_server.Handlers.Admin.{or_end}
use nexlog_server.Handlers.Routes.{
  Guarded, password, files, site, hero, stats, about, services, news, partners, contact,
  all_languages, panel,
}
use nexlog_server.Handlers.Routes.Effects.{made_by}
use nexlog_server.Service.Seed.Ready.{HasSite}
use nexlog_server.Service.Seed.Invariant.{Seedable, Unfilled, Seedable-seed_if_empty}
use nexlog_server.Server.Boot.{
  Host, Server, Started, listening, exited, panicked, service_db, with_service, after_seed,
  after_migrate, after_pool, after_info, after_load, boot,
}
use nexlog_server.Server.Boot.Keeps.{ScriptsKeep, Seedable-boot}
use nexlog_server.Server.Settled.{Settled, Settled-History}
use nexlog_server.Server.Boot.Ready.{boot-IsReady}
use nexlog_server.Server.Life.{Event, live}
use nexlog_server.Server.History.{History, nothing, unchanged, changed, History-live}

Seedable-Settled : (t : Tables) → Settled t → Seedable t
Seedable-Settled t h = record {
  well_formed = h.well_formed;
  unfilled = subst (λ o. Unfilled o t) (sym h.has_site.1) tt;
}

module _ (host : Host) (keeps : ScriptsKeep host) where
  Settled-live :
      (db : Db (Schema Tables)) (s : Server host) (events : List Event)
      → IsJwt host.packages.jwt
      → Seedable db.tables.state
      → (boot host db).0 ≡ listening s
      → Settled (live host s events).app.db.tables
  Settled-live db s events ok h listens =
      let ready = boot-IsReady host db s listens in
      Settled-History host.packages (History-live host events s ok) (record {
        well_formed =
            subst WellFormed (sym ready.same_tables) (Seedable-boot host keeps db h).well_formed;
        has_site = ready.has_site;
      })

-- A run of the process: where it starts, what the calls of the database come to, and what happens
-- where it listens, until it is stopped.
pub record Run : Type 1 where
  pub host : Host
  pub outcomes : List Outcome
  pub events : List Event

abbrev stopped_after :
    (host : Host) → List Event → Started host × Db (Schema Tables) → Db (Schema Tables)
stopped_after host events (listening s, db) = with_service db (live host s events).app.db
stopped_after host events (exited log, db) = db
stopped_after host events (panicked, db) = db

abbrev after_run : Run → Db (Schema Tables) → Db (Schema Tables)
after_run run db =
    stopped_after run.host run.events (boot run.host (record db { outcomes = run.outcomes }))

unfoldable pub after_runs : List Run → Db (Schema Tables) → Db (Schema Tables)
after_runs [] db = db
after_runs (run ∷ runs) db = after_runs runs (after_run run db)

Seedable-stopped_after :
    (host : Host) (events : List Event) (result : Started host × Db (Schema Tables))
    → Seedable result.1.tables.state
    → ((s : Server host) → result.0 ≡ listening s → Seedable (live host s events).app.db.tables)
    → Seedable (stopped_after host events result).tables.state
Seedable-stopped_after host events (listening s, db) h served = served s refl
Seedable-stopped_after host events (exited log, db) h served = h
Seedable-stopped_after host events (panicked, db) h served = h

Seedable-after_run :
    (run : Run) (db : Db (Schema Tables))
    → ScriptsKeep run.host
    → IsJwt run.host.packages.jwt
    → Seedable db.tables.state
    → Seedable (after_run run db).tables.state
Seedable-after_run run db keeps ok h =
    let given = record db { outcomes = run.outcomes } in
    Seedable-stopped_after run.host run.events (boot run.host given)
      (Seedable-boot run.host keeps given h)
      λ s listens. Seedable-Settled _ (Settled-live run.host keeps given s run.events ok h listens)

-- Where the requests of each run come one after the other: however often the process has run, each
-- time on its own host, and whatever went wrong in a run and was requested, the codes of the languages
-- are distinct, the rows of every list are numbered from 0 in their order, so that ORDER BY sort_order leaves nothing open, and without a site there are no
-- slides and no stats. This for a database that was so at first, and migrations that keep it so.
pub Seedable-after_runs :
    (runs : List Run) (db : Db (Schema Tables))
    → All (λ run. ScriptsKeep run.host) runs
    → All (λ run. IsJwt run.host.packages.jwt) runs
    → Seedable db.tables.state
    → Seedable (after_runs runs db).tables.state
unfolding after_runs
Seedable-after_runs [] db keep ok h = h
Seedable-after_runs (run ∷ runs) db (keeps, keep) (jwt, ok) h =
    Seedable-after_runs runs (after_run run db) keep ok (Seedable-after_run run db keeps jwt h)
