-- ===== src/Handlers/Interleaving/Tests.antt =====
-- Concrete interleavings.
use nexlog_server.Base.{ℕ, ◌≡◌, refl, false}
use nexlog_server.Base.{arith}
use nexlog_server.Cache
use nexlog_server.Http.{Request}
use nexlog_server.Sql.{Db, Err, exec}
use nexlog_server.Repository.Tables.{Tables}
use nexlog_server.Repository.Writes.{update_site}
use nexlog_server.Samples.{plain_packages, request_of, no_header, some_app}
use nexlog_server.Handlers.{content, write_json}
use nexlog_server.Handlers.Public.{serve_content}
use nexlog_server.Handlers.Public.Freshness.{payload_of}
use nexlog_server.Handlers.Interleaving.{
  idle, stored, cross, System, put_place, with_db, with_cache, store, flush, Reach, start, later,
}
use nexlog_server.Handlers.Interleaving.Fresh.{content-Reach}
use nexlog_server.Handlers.Interleaving.Stale.{stale-Reach}

abbrev get_content : Request
get_content = request_of "GET" "/api/content" no_header "" 9

abbrev rename : Db Tables → Err × Db Tables
rename = update_site (record { company_name = "NexLog 2"; tagline = "Still moving" })

-- Request 3 has changed the site and flushed the cache.
abbrev renamed : System
renamed = record {
  app = with_cache (Cache.flush some_app.cache) (with_db (rename some_app.db).1 some_app);
  place = put_place 3 idle (put_place 3 stored (λ j. cross idle));
  tainted = false;
}

renamed_reached : Reach some_app renamed
unfolding update_site exec
renamed_reached = later (later start (store 3 rename refl refl refl)) (flush 3 refl)

content-Reach_example :
    (serve_content plain_packages get_content renamed.app).0
    ≡ write_json plain_packages 200 (content (payload_of renamed.app.db.tables))
unfolding Cache.get
content-Reach_example =
    content-Reach plain_packages get_content some_app renamed refl refl (λ now. tt) renamed_reached
      (λ i. ground arith) refl

stale-Reach_example :
    (s : System) × Reach some_app s
    × ((i : ℕ) → s.place i ≡ idle)
    × (s.app.db.tables ≡ (rename some_app.db).1.tables)
    × ((serve_content plain_packages get_content s.app).0
        ≡ write_json plain_packages 200 (content (payload_of some_app.db.tables)))
unfolding update_site exec Cache.get
stale-Reach_example =
    stale-Reach plain_packages get_content some_app rename 5 refl refl refl refl refl (omega arith)
