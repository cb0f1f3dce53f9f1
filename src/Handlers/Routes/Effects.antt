-- ===== src/Handlers/Routes/Effects.antt =====
-- What a request does to the tables: an abstract view of the handlers.
use nexlog_server.Base.{
  ◌≡◌, refl, String, ◌⊎◌, inl, inr, sym, subst, ap, Option, none, some, List, [], if_both,
  Bool-cases, not, arith, ◌==◌,
}
use nexlog_server.Http.{Action, Request}
use nexlog_server.Sql.{Db, Err, exec}
use nexlog_server.Sql.Laws.{AllOrNothing, exec-AllOrNothing}
use nexlog_server.Middleware.Auth.{auth}
use nexlog_server.Middleware.Auth.Laws.{IsJwt, HasToken, auth_cases}
use nexlog_server.Middleware.Security.{add_cache_headers}
use nexlog_server.Repository.Tables.{Tables, update_one}
use nexlog_server.Repository.Writes.{
  update_site, update_about, update_contact, update_admin_password, update_side_panel,
}
use nexlog_server.Repository.Writes.Atomic.{
  numbered, update_lists-AllOrNothing, update_hero_slides-AllOrNothing,
}
use nexlog_server.Repository.Writes.Languages.{languages_made, update_languages-AllOrNothing}
use nexlog_server.Service
use nexlog_server.Handlers.{Packages, App, limited_body, call_db}
use nexlog_server.Handlers.Admin.{
  finish_put, admin_put, or_end, admin_site, admin_hero, admin_stats, admin_about, admin_services,
  admin_news, admin_partners, admin_contact, admin_languages, admin_side_panel,
}
use nexlog_server.Handlers.Public.{serve_health}
use nexlog_server.Handlers.Login.{change_password}
use nexlog_server.Handlers.Upload.{upload}
use nexlog_server.Handlers.Routes.{
  Guarded, password, files, site, hero, stats, about, services, news, partners, contact,
  all_languages, panel, Endpoint, health, content, languages, side_panel, sign_in, guarded, uploads,
  admin_page, fallback, Found, serve, redirect_to, not_found, route, Static, change, handler_of,
  mux_found, mux,
}
use nexlog_server.Handlers.Routes.Protection.{
  Unwritten-content, Unwritten-languages, Unwritten-side_panel, Unwritten-login,
}

module _ (pk : Packages) (r : Request) where
  -- What an administrator's request makes of the tables, none where the database refuses it. A list
  -- is stored in its order, numbered from 0.
  unfoldable pub made_by : Guarded → Tables → Option Tables
  made_by password t = some (record t {
    admin_password =
        update_one (pk.hash_password (r.random 0) (pk.decode_new_password (limited_body r)).0).0
          t.admin_password;
  })
  made_by files t = some t
  made_by site t = some (record t { site = update_one (pk.decode_site (limited_body r)).0 t.site })
  made_by hero t =
      some (record t { hero_slides = numbered 0 (pk.decode_slides (limited_body r)).0 })
  made_by stats t = some (record t { stats = numbered 0 (pk.decode_stats (limited_body r)).0 })
  made_by about t =
      some (record t { about = update_one (pk.decode_about (limited_body r)).0 t.about })
  made_by services t =
      some (record t { services = numbered 0 (pk.decode_services (limited_body r)).0 })
  made_by news t = some (record t { news = numbered 0 (pk.decode_news (limited_body r)).0 })
  made_by partners t =
      some (record t { partners = numbered 0 (pk.decode_partners (limited_body r)).0 })
  made_by contact t =
      some (record t { contact = update_one (pk.decode_contact (limited_body r)).0 t.contact })
  made_by all_languages t =
      languages_made pk.codec (or_end pk (pk.decode_object (limited_body r)).0)
        (some (record t { languages = [] }))
  made_by panel t = elim (pk.codec.jsonb (pk.codec.marshal (pk.decode_object (limited_body r)).0)) [
    | none ↦ none
    | some s ↦ some (record t { sidepanel = update_one s t.sidepanel })
  ]

-- Nothing, or the whole effect.
abbrev pub Effect : Option Tables → Tables → Tables → Type 0
Effect target t u = (u ≡ t) ⊎ (target ≡ some u)

Effect-AllOrNothing :
    (old : Tables) (target : Option Tables) (result : Err × Db Tables)
    → AllOrNothing old target result
    → Effect target old result.1.tables
Effect-AllOrNothing old target (none, db) h = inr h
Effect-AllOrNothing old target (some e, db) h = h

module _ (pk : Packages) (r : Request) (app : App) where
  finish_put-tables : (result : Err × App) → (finish_put pk result).1.db.tables ≡ result.1.db.tables
  finish_put-tables (none, app) = refl
  finish_put-tables (some e, app) = refl

  Effect-admin_put :
      (target : Option Tables) (write : Request → Db Tables → Err × Db Tables)
      → AllOrNothing app.db.tables target (write r app.db)
      → Effect target app.db.tables (admin_put pk (λ r. call_db (write r)) r app).1.db.tables
  unfolding admin_put
  Effect-admin_put target write whole = elim (Bool-cases (r.method == "PUT")) [
    | inl put ↦
        rw (put, admin_put)
          (subst (Effect target app.db.tables) (sym (finish_put-tables (call_db (write r) app)))
            (Effect-AllOrNothing app.db.tables target (write r app.db) whole))
    | inr other ↦ rw (other, admin_put) (inl refl)
  ]

  Effect-change_password :
      Effect
        (made_by pk r password app.db.tables)
        app.db.tables
        (change_password pk r app).1.db.tables
  unfolding change_password made_by update_admin_password
  Effect-change_password =
      let hash = (pk.hash_password (r.random 0) (pk.decode_new_password (limited_body r)).0).0 in
      let put : Tables → Option Tables =
        λ t. some (record t { admin_password = update_one hash t.admin_password }) in
      let P : List Action × App → Type 0 =
        λ x. Effect (put app.db.tables) app.db.tables x.1.db.tables in
      if_both P (not (r.method == "POST")) _ _ (inl refl) (
        if_both P _ _ _ (inl refl)
          (Effect-AllOrNothing app.db.tables _ _ (exec-AllOrNothing put app.db)))

  Effect-upload : (upload pk r app).1.db.tables ≡ app.db.tables
  unfolding upload
  Effect-upload = ground arith

  Effect-change :
      (static : Static) (secret : String) (g : Guarded)
      → Effect
          (made_by pk r g app.db.tables)
          app.db.tables
          (change pk static secret g r app).1.db.tables
  unfolding change made_by admin_site admin_hero admin_stats admin_about admin_services admin_news
      admin_partners admin_contact admin_languages admin_side_panel update_site update_about
      update_contact update_side_panel
  Effect-change static secret password = Effect-change_password
  Effect-change static secret files = inl Effect-upload
  Effect-change static secret site =
      Effect-admin_put _ (λ r. exec (made_by pk r site))
        (exec-AllOrNothing (made_by pk r site) app.db)
  Effect-change static secret hero =
      Effect-admin_put _ (λ r. Service.update_hero_slides (pk.decode_slides (limited_body r)).0)
        (update_hero_slides-AllOrNothing _ app.db)
  Effect-change static secret stats =
      Effect-admin_put _ (λ r. Service.update_stats (pk.decode_stats (limited_body r)).0)
        (update_lists-AllOrNothing app.db _ [] [] []).0
  Effect-change static secret about =
      Effect-admin_put _ (λ r. exec (made_by pk r about))
        (exec-AllOrNothing (made_by pk r about) app.db)
  Effect-change static secret services =
      Effect-admin_put _ (λ r. Service.update_services (pk.decode_services (limited_body r)).0)
        (update_lists-AllOrNothing app.db [] _ [] []).1
  Effect-change static secret news =
      Effect-admin_put _ (λ r. Service.update_news (pk.decode_news (limited_body r)).0)
        (update_lists-AllOrNothing app.db [] [] _ []).2
  Effect-change static secret partners =
      Effect-admin_put _ (λ r. Service.update_partners (pk.decode_partners (limited_body r)).0)
        (update_lists-AllOrNothing app.db [] [] [] _).3
  Effect-change static secret contact =
      Effect-admin_put _ (λ r. exec (made_by pk r contact))
        (exec-AllOrNothing (made_by pk r contact) app.db)
  Effect-change static secret all_languages =
      Effect-admin_put _
        (λ r. Service.update_languages pk.codec (or_end pk (pk.decode_object (limited_body r)).0))
        (update_languages-AllOrNothing pk.codec _ app.db)
  Effect-change static secret panel =
      Effect-admin_put _ (λ r. exec (made_by pk r panel))
        (exec-AllOrNothing (made_by pk r panel) app.db)

module _ (pk : Packages) (static : Static) (secret : String) (r : Request) where
  -- The tables are as they were, or the request bore a valid token, for a route that is guarded, and
  -- all of its effect is there.
  abbrev pub MuxEffect : Tables → Tables → Type 0
  MuxEffect t u =
      (u ≡ t)
      ⊎ ((g : Guarded) × (route r ≡ serve (guarded g))
          × HasToken pk.jwt secret r
          × (made_by pk r g t ≡ some u))

  module _ (ok : IsJwt pk.jwt) (app : App) where
    MuxEffect-guarded :
        (g : Guarded)
        → route r ≡ serve (guarded g)
        → MuxEffect app.db.tables (auth pk.jwt secret (change pk static secret g) r app).1.db.tables
    MuxEffect-guarded g found =
        elim (auth_cases pk.jwt secret ok (change pk static secret g) r app) [
          | inl (bears, served) ↦ rw served (elim (Effect-change pk r app static secret g) [
            | inl same ↦ inl same
            | inr made ↦ inr (g, found, bears, made)
          ])
          | inr (refused, same) ↦ inl (ap (λ a. a.db.tables) same)
        ]

    MuxEffect-handler_of :
        (e : Endpoint)
        → route r ≡ serve e
        → MuxEffect app.db.tables (handler_of pk static secret e r app).1.db.tables
    unfolding handler_of serve_health add_cache_headers
    MuxEffect-handler_of health found = inl refl
    MuxEffect-handler_of content found = inl (Unwritten-content pk r app).0
    MuxEffect-handler_of languages found = inl (Unwritten-languages pk r app).0
    MuxEffect-handler_of side_panel found = inl (Unwritten-side_panel pk r app).0
    MuxEffect-handler_of sign_in found = inl (Unwritten-login pk r app secret).0
    MuxEffect-handler_of (guarded g) found = MuxEffect-guarded g found
    MuxEffect-handler_of uploads found = inl refl
    MuxEffect-handler_of admin_page found = inl refl
    MuxEffect-handler_of fallback found = inl (ground arith)

    MuxEffect-mux_found :
        (f : Found)
        → route r ≡ f
        → MuxEffect app.db.tables (mux_found pk static secret f r app).1.db.tables
    MuxEffect-mux_found (serve e) found = MuxEffect-handler_of e found
    MuxEffect-mux_found (redirect_to p) found = inl refl
    MuxEffect-mux_found not_found found = inl refl

    pub mux-MuxEffect : MuxEffect app.db.tables (mux pk static secret r app).1.db.tables
    unfolding mux
    mux-MuxEffect = MuxEffect-mux_found (route r) refl
