-- ===== src/Handlers/Public/Freshness.antt =====
-- /api/content shows the tables, and at once after an administrator's change.
use nexlog_server.Base.{◌≡◌, refl, ap, [], none, some, eq_iff, arith}
use nexlog_server.Cache
use nexlog_server.Cache.Laws.{get-flush}
use nexlog_server.Http.{Request}
use nexlog_server.Sql.{Err, query, query_row}
use nexlog_server.Repository.Tables.{Tables, by_sort_order}
use nexlog_server.Repository.Reads.{
  get_site, get_hero_slides, get_stats, get_about, get_services, get_news, get_partners,
  get_contact,
}
use nexlog_server.Handlers.Admin.Laws.{put_done}
use nexlog_server.Handlers.{Packages, App, Payload, Reply, content, write_json}
use nexlog_server.Handlers.Public.{read_payload, serve_content}
use nexlog_server.Handlers.Admin.{admin_put}

-- What a visitor is to see of the tables.
abbrev pub payload_of : Tables → Payload
payload_of t = record {
  site = elim t.site [ none ↦ record { company_name = ""; tagline = "" } | some s ↦ s ];
  slides = some (by_sort_order t.hero_slides);
  stats = some (by_sort_order t.stats);
  about = elim t.about [ none ↦ record { title = ""; description = ""; image = "" } | some a ↦ a ];
  services = some (by_sort_order t.services);
  news = some (by_sort_order t.news);
  partners = some (by_sort_order t.partners);
  contact = elim t.contact [
    | none ↦ record { address = ""; phone = ""; email = ""; whatsapp = "" }
    | some c ↦ c
  ];
}

pub read_payload_lem :
    (app : App)
    → app.db.outcomes ≡ []
    → ((read_payload app).0 ≡ payload_of app.db.tables) × ((read_payload app).1.cache ≡ app.cache)
unfolding read_payload get_site get_hero_slides get_stats get_about get_services get_news
    get_partners get_contact query query_row
read_payload_lem app fine = ground arith

pub from_cache :
    (pk : Packages) (r : Request) (app : App) (v : Reply)
    → r.method ≡ "GET"
    → Cache.get (r.clock 3) "content" app.cache ≡ some v
    → (serve_content pk r app).0 ≡ write_json pk 200 v
unfolding serve_content
from_cache pk r app v get there = rw ((eq_iff _ _).1 get, there, serve_content) refl

module _ (pk : Packages) (r : Request) (get : r.method ≡ "GET") where
  -- With nothing in the cache and a database that answers, the reply is the payload of the tables.
  pub content_fresh :
      (app : App)
      → Cache.get (r.clock 3) "content" app.cache ≡ none
      → app.db.outcomes ≡ []
      → (serve_content pk r app).0 ≡ write_json pk 200 (content (payload_of app.db.tables))
  unfolding serve_content
  content_fresh app missing fine =
      rw ((eq_iff _ _).1 get, missing, serve_content)
        (ap (λ p. write_json pk 200 (content p)) (read_payload_lem app fine).0)

  -- After a change by an administrator that succeeded, the next request for the content is answered
  -- from the tables as the change left them, whatever the cache held before, if the database
  -- answers.
  pub content-admin_put :
      (fn : Request → App → Err × App) (put : Request) (app : App)
      → put.method ≡ "PUT"
      → (fn put app).0 ≡ none
      → (fn put app).1.db.outcomes ≡ []
      → (serve_content pk r (admin_put pk fn put app).1).0
        ≡ write_json pk 200 (content (payload_of (fn put app).1.db.tables))
  unfolding admin_put
  content-admin_put fn put app is_put done fine =
      rw (put_done pk fn put app is_put done, admin_put)
        (content_fresh _ (get-flush _ (r.clock 3) "content") fine)
