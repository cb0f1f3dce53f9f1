-- ===== src/Handlers/Routes/Protection.antt =====
-- Nobody writes without a token.
use nexlog_server.Base.{String, ◌≡◌, refl, inl, inr, arith}
use nexlog_server.Http.{Request, Handler, respond}
use nexlog_server.Sql.{query, query_row}
use nexlog_server.Middleware.Auth.{auth}
use nexlog_server.Middleware.Auth.Laws.{IsJwt, HasToken, auth_cases}
use nexlog_server.Middleware.Security.{add_cache_headers}
use nexlog_server.Repository.Reads.{
  get_site, get_hero_slides, get_stats, get_about, get_services, get_news, get_partners,
  get_contact, get_languages, get_side_panel, get_admin_password_hash,
}
use nexlog_server.Handlers.{Packages, App}
use nexlog_server.Handlers.Public.{
  read_payload, serve_content, serve_languages, serve_side_panel, serve_health,
}
use nexlog_server.Handlers.Login.{login}
use nexlog_server.Handlers.Routes.{
  Static, Guarded, Endpoint, health, content, languages, side_panel, sign_in, guarded, uploads,
  admin_page, fallback, Found, serve, redirect_to, not_found, route, change, handler_of, mux_found,
  mux,
}

-- The tables and the files are as before.
abbrev pub Unwritten : App → App → Type 0
Unwritten app app' = (app'.db.tables ≡ app.db.tables) × (app'.disk ≡ app.disk)

Unwritten-read_payload : (app : App) → Unwritten app (read_payload app).1
unfolding read_payload get_site get_hero_slides get_stats get_about get_services get_news
    get_partners get_contact query query_row
Unwritten-read_payload app = (refl, refl)

module _ (pk : Packages) (r : Request) (app : App) where
  pub Unwritten-content : Unwritten app (serve_content pk r app).1
  unfolding serve_content
  Unwritten-content = ground (arith, Unwritten-read_payload app)

  pub Unwritten-languages : Unwritten app (serve_languages pk r app).1
  unfolding serve_languages get_languages query
  Unwritten-languages = ground arith

  pub Unwritten-side_panel : Unwritten app (serve_side_panel pk r app).1
  unfolding serve_side_panel get_side_panel query_row
  Unwritten-side_panel = ground arith

  pub Unwritten-login : (secret : String) → Unwritten app (login pk secret r app).1
  unfolding login get_admin_password_hash query_row
  Unwritten-login secret = ground arith

module _ (pk : Packages) (static : Static) (secret : String) (ok : IsJwt pk.jwt) (r : Request)
    (app : App) (no_token : ¬ HasToken pk.jwt secret r) where
  guarded_refused :
      (next : Handler App)
      → ((respond (auth pk.jwt secret next r app).0).status ≡ 401)
        × ((auth pk.jwt secret next r app).1 ≡ app)
  guarded_refused next = elim (auth_cases pk.jwt secret ok next r app) [
    | inl passed ↦ absurd (no_token passed.0)
    | inr refused ↦ refused
  ]

  Unwritten-handler_of : (e : Endpoint) → Unwritten app (handler_of pk static secret e r app).1
  unfolding handler_of serve_health add_cache_headers
  Unwritten-handler_of health = (refl, refl)
  Unwritten-handler_of content = Unwritten-content pk r app
  Unwritten-handler_of languages = Unwritten-languages pk r app
  Unwritten-handler_of side_panel = Unwritten-side_panel pk r app
  Unwritten-handler_of sign_in = Unwritten-login pk r app secret
  Unwritten-handler_of (guarded g) = rw (guarded_refused (change pk static secret g)).1 (refl, refl)
  Unwritten-handler_of uploads = (refl, refl)
  Unwritten-handler_of admin_page = (refl, refl)
  Unwritten-handler_of fallback = ground arith

  Unwritten-mux_found : (f : Found) → Unwritten app (mux_found pk static secret f r app).1
  Unwritten-mux_found (serve e) = Unwritten-handler_of e
  Unwritten-mux_found (redirect_to p) = (refl, refl)
  Unwritten-mux_found not_found = (refl, refl)

  -- Whatever its path, method and body, a request without a valid token that was signed with the
  -- server's secret by an HMAC method changes neither a table nor a file.
  pub mux-Unwritten : Unwritten app (mux pk static secret r app).1
  unfolding mux
  mux-Unwritten = Unwritten-mux_found (route r)

  -- Such a request to a route that RegisterRoutes guards is answered 401 and changes nothing at
  -- all, the cache included.
  pub mux_guarded :
      (g : Guarded)
      → route r ≡ serve (guarded g)
      → ((respond (mux pk static secret r app).0).status ≡ 401)
        × ((mux pk static secret r app).1 ≡ app)
  unfolding mux handler_of
  mux_guarded g found = rw (found, mux) (guarded_refused (change pk static secret g))
