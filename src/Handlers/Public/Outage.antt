-- ===== src/Handlers/Public/Outage.antt =====
-- /api/content while the database fails.
use nexlog_server.Base.{◌+◌, ◌≤◌, String, ◌≡◌, refl, ◌∙◌, ap, List, ◌∷◌, none, eq_iff}
use nexlog_server.Cache
use nexlog_server.Cache.Laws.{get-set_fresh}
use nexlog_server.Http.{Request}
use nexlog_server.Sql.{Db, Outcome, refused, query, query_row}
use nexlog_server.Repository.Tables.{Tables}
use nexlog_server.Repository.Reads.{
  get_site, get_hero_slides, get_stats, get_about, get_services, get_news, get_partners,
  get_contact,
}
use nexlog_server.Handlers.{Packages, App, content, write_json}
use nexlog_server.Handlers.Public.{read_payload, fresh_content, serve_content}
use nexlog_server.Handlers.Public.Freshness.{from_cache}
use nexlog_server.Handlers.Interleaving.{unread}

-- The eight calls of Content fail.
abbrev pub outage : String → List Outcome → List Outcome
outage e later =
    refused e
    ∷ refused e
    ∷ refused e
    ∷ refused e
    ∷ refused e
    ∷ refused e
    ∷ refused e
    ∷ refused e
    ∷ later

read_nothing :
    (app : App) (e : String) (later : List Outcome)
    → app.db.outcomes ≡ outage e later
    → ((read_payload app).0 ≡ unread) × ((read_payload app).1.cache ≡ app.cache)
unfolding read_payload get_site get_hero_slides get_stats get_about get_services get_news
    get_partners get_contact query query_row
read_nothing app e later fails = rw fails (refl, refl)

module _ (pk : Packages) where
  served_fresh :
      (r : Request) (app : App)
      → r.method ≡ "GET"
      → Cache.get (r.clock 3) "content" app.cache ≡ none
      → serve_content pk r app ≡ fresh_content pk r app
  unfolding serve_content
  served_fresh r app get missing = rw ((eq_iff _ _).1 get, missing, serve_content) refl

  -- While the database refuses every read, a request for the content is answered 200 with a payload
  -- of empty texts and null lists; and that is the answer for the whole time to live of the cache, although the database
  -- may long be back.
  pub serve_content-outage :
      (r r' : Request) (app : App) (back : Db Tables) (e : String) (later : List Outcome)
      → r.method ≡ "GET"
      → r'.method ≡ "GET"
      → Cache.get (r.clock 3) "content" app.cache ≡ none
      → app.db.outcomes ≡ outage e later
      → r'.clock 3 ≤ r.clock 4 + app.cache.ttl
      → ((serve_content pk r app).0 ≡ write_json pk 200 (content unread))
        × ((serve_content pk r' (record (serve_content pk r app).1 { db = back })).0
            ≡ write_json pk 200 (content unread))
  serve_content-outage r r' app back e later get get' missing fails soon =
      let (nothing, same_cache) = read_nothing app e later fails in
      let first = served_fresh r app get missing in
      let cached : (serve_content pk r app).1.cache
          ≡ Cache.set (r.clock 4) "content" (content unread) app.cache =
        ap (λ x. x.1.cache) first
        ∙ (ap (λ p. Cache.set (r.clock 4) "content" (content p) (read_payload app).1.cache) nothing
            ∙ ap (Cache.set (r.clock 4) "content" (content unread)) same_cache) in
      (
        ap (λ x. x.0) first ∙ ap (λ p. write_json pk 200 (content p)) nothing,
        from_cache pk r' _ (content unread) get' (
            ap (Cache.get (r'.clock 3) "content") cached
            ∙ get-set_fresh app.cache (r.clock 4) (r'.clock 3) "content" (content unread) soon),
      )
