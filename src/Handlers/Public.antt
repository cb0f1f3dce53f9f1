-- ===== src/Handlers/Public.antt =====
-- internal/handlers/handlers.go: Content, Languages, SidePanel and Health. The cache is read at the
-- third reading of the clock and written at the fourth.
pub mod Freshness
pub mod Languages
pub mod Outage
use nexlog_server.Base.{ℕ, String, List, Option, none, some, not, ◌==◌, if◌then◌else◌}
use nexlog_server.Http.{Request, Action, Handler}
use nexlog_server.Json.{Fields}
use nexlog_server.Cache
use nexlog_server.Sql.{Err}
use nexlog_server.Service
use nexlog_server.Handlers.{
  Packages, App, Payload, Reply, failure, status_ok, content, object, write_json, not_allowed,
  call_db,
}

abbrev pub store_reply : ℕ → String → Reply → App → App
store_reply now key v app = record app { cache = Cache.set now key v app.cache }

-- The payload from the database; the errors of the reads are dropped.
unfoldable pub read_payload : App → Payload × App
read_payload app =
    let (site, app1) = call_db Service.get_site app in
    let (slides, app2) = call_db Service.get_hero_slides app1 in
    let (stats, app3) = call_db Service.get_stats app2 in
    let (about, app4) = call_db Service.get_about app3 in
    let (services, app5) = call_db Service.get_services app4 in
    let (news, app6) = call_db Service.get_news app5 in
    let (partners, app7) = call_db Service.get_partners app6 in
    let (contact, app8) = call_db Service.get_contact app7 in
    (
      record {
        site = site.0;
        slides = slides.0;
        stats = stats.0;
        about = about.0;
        services = services.0;
        news = news.0;
        partners = partners.0;
        contact = contact.0;
      },
      app8,
    )

module _ (pk : Packages) where
  abbrev pub fresh_content : Request → App → List Action × App
  fresh_content r app =
      let (payload, app') = read_payload app in
      (
        write_json pk 200 (content payload),
        store_reply (r.clock 4) "content" (content payload) app',
      )

  abbrev pub content_or : Option Reply → Request → App → List Action × App
  content_or none r app = fresh_content r app
  content_or (some v) r app = (write_json pk 200 v, app)

  unfoldable pub serve_content : Handler App
  serve_content r app =
      if not (r.method == "GET")
      then (not_allowed pk, app)
      else content_or (Cache.get (r.clock 3) "content" app.cache) r app

  abbrev pub answer_object : Request → String → (Option Fields × Err) × App → List Action × App
  answer_object r key ((v, some e), app) = (write_json pk 500 (failure e), app)
  answer_object r key ((v, none), app) =
      (write_json pk 200 (object v), store_reply (r.clock 4) key (object v) app)

  abbrev pub object_or : Option Reply → (List Action × App) → App → List Action × App
  object_or none fresh app = fresh
  object_or (some v) fresh app = (write_json pk 200 v, app)

  unfoldable pub serve_languages : Handler App
  serve_languages r app =
      if not (r.method == "GET")
      then (not_allowed pk, app)
      else object_or (Cache.get (r.clock 3) "languages" app.cache)
          (answer_object r "languages" (call_db (Service.get_languages pk.codec) app)) app

  unfoldable pub serve_side_panel : Handler App
  serve_side_panel r app =
      if not (r.method == "GET")
      then (not_allowed pk, app)
      else object_or (Cache.get (r.clock 3) "sidepanel" app.cache)
          (answer_object r "sidepanel" (call_db (Service.get_side_panel pk.codec) app)) app

  unfoldable pub serve_health : Handler App
  serve_health r app = (write_json pk 200 (status_ok (r.clock 3)), app)
