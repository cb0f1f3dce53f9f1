-- ===== src/Handlers/Routes/Kinds.antt =====
-- What the multiplexer leaves in the cache.
use nexlog_server.Base.{String, ◌≡◌, sym, subst, inl, inr, arith}
use nexlog_server.Http.{Request}
use nexlog_server.Middleware.Auth.{auth}
use nexlog_server.Middleware.Auth.Laws.{IsJwt, auth_cases}
use nexlog_server.Middleware.Security.{add_cache_headers}
use nexlog_server.Service
use nexlog_server.Handlers.{Packages, App, limited_body}
use nexlog_server.Handlers.Public.{serve_health}
use nexlog_server.Handlers.Admin.{
  admin_site, admin_hero, admin_stats, admin_about, admin_services, admin_news, admin_partners,
  admin_contact, admin_languages, admin_side_panel, or_end,
}
use nexlog_server.Handlers.Kinds.{WellKinded}
use nexlog_server.Handlers.Kinds.Kept.{
  KindsAfter, KindsAfter-content, KindsAfter-languages, KindsAfter-side_panel, KindsAfter-login,
  KindsAfter-change_password, KindsAfter-upload, KindsAfter-admin_put,
}
use nexlog_server.Handlers.Routes.{
  Guarded, password, files, site, hero, stats, about, services, news, partners, contact,
  all_languages, panel, Endpoint, health, content, languages, side_panel, sign_in, guarded, uploads,
  admin_page, fallback, Found, serve, redirect_to, not_found, route, Static, change, handler_of,
  mux_found, mux,
}

module _ (pk : Packages) (static : Static) (secret : String) (r : Request) (app : App)
    (h : WellKinded app.cache) where
  KindsAfter-change : (g : Guarded) → KindsAfter (change pk static secret g r app)
  unfolding change admin_site admin_hero admin_stats admin_about admin_services admin_news
      admin_partners admin_contact admin_languages admin_side_panel
  KindsAfter-change password = KindsAfter-change_password pk r app h
  KindsAfter-change files = KindsAfter-upload pk r app h
  KindsAfter-change site =
      KindsAfter-admin_put pk r app h λ r. Service.update_site (pk.decode_site (limited_body r)).0
  KindsAfter-change hero =
      KindsAfter-admin_put pk r app h
        λ r. Service.update_hero_slides (pk.decode_slides (limited_body r)).0
  KindsAfter-change stats =
      KindsAfter-admin_put pk r app h λ r. Service.update_stats (pk.decode_stats (limited_body r)).0
  KindsAfter-change about =
      KindsAfter-admin_put pk r app h λ r. Service.update_about (pk.decode_about (limited_body r)).0
  KindsAfter-change services =
      KindsAfter-admin_put pk r app h
        λ r. Service.update_services (pk.decode_services (limited_body r)).0
  KindsAfter-change news =
      KindsAfter-admin_put pk r app h λ r. Service.update_news (pk.decode_news (limited_body r)).0
  KindsAfter-change partners =
      KindsAfter-admin_put pk r app h
        λ r. Service.update_partners (pk.decode_partners (limited_body r)).0
  KindsAfter-change contact =
      KindsAfter-admin_put pk r app h
        λ r. Service.update_contact (pk.decode_contact (limited_body r)).0
  KindsAfter-change all_languages =
      KindsAfter-admin_put pk r app h
        λ r. Service.update_languages pk.codec (or_end pk (pk.decode_object (limited_body r)).0)
  KindsAfter-change panel =
      KindsAfter-admin_put pk r app h
        λ r. Service.update_side_panel pk.codec (pk.decode_object (limited_body r)).0

  KindsAfter-guarded :
      (ok : IsJwt pk.jwt) (g : Guarded)
      → KindsAfter (auth pk.jwt secret (change pk static secret g) r app)
  KindsAfter-guarded ok g = elim (auth_cases pk.jwt secret ok (change pk static secret g) r app) [
    | inl (bears, served) ↦ subst KindsAfter (sym served) (KindsAfter-change g)
    | inr (refused, same) ↦ subst (λ a. WellKinded a.cache) (sym same) h
  ]

  fallback-cache : (handler_of pk static secret fallback r app).1.cache ≡ app.cache
  unfolding handler_of add_cache_headers
  fallback-cache = ground arith

  KindsAfter-handler_of :
      (ok : IsJwt pk.jwt) (e : Endpoint) → KindsAfter (handler_of pk static secret e r app)
  unfolding handler_of serve_health add_cache_headers
  KindsAfter-handler_of ok health = h
  KindsAfter-handler_of ok content = KindsAfter-content pk r app h
  KindsAfter-handler_of ok languages = KindsAfter-languages pk r app h
  KindsAfter-handler_of ok side_panel = KindsAfter-side_panel pk r app h
  KindsAfter-handler_of ok sign_in = KindsAfter-login pk r app h secret
  KindsAfter-handler_of ok (guarded g) = KindsAfter-guarded ok g
  KindsAfter-handler_of ok uploads = h
  KindsAfter-handler_of ok admin_page = h
  KindsAfter-handler_of ok fallback = subst WellKinded (sym fallback-cache) h

  KindsAfter-mux_found :
      (ok : IsJwt pk.jwt) (f : Found) → KindsAfter (mux_found pk static secret f r app)
  KindsAfter-mux_found ok (serve e) = KindsAfter-handler_of ok e
  KindsAfter-mux_found ok (redirect_to p) = h
  KindsAfter-mux_found ok not_found = h

  pub KindsAfter-mux : (ok : IsJwt pk.jwt) → KindsAfter (mux pk static secret r app)
  unfolding mux
  KindsAfter-mux ok = KindsAfter-mux_found ok (route r)
