-- ===== src/Server/Kinds.antt =====
-- cmd/server/main.go: what the cache holds and what the three public handlers answer with, while the
-- server runs.
use nexlog_server.Base.{◌≡◌, List, [], ◌∷◌}
use nexlog_server.Http.{Request}
use nexlog_server.Sql.{Db}
use nexlog_server.Migrate.{Schema}
use nexlog_server.Middleware.Auth.Laws.{IsJwt}
use nexlog_server.Repository.Tables.{Tables}
use nexlog_server.Handlers.Public.{serve_content, serve_languages, serve_side_panel}
use nexlog_server.Handlers.Kinds.{IsContent, IsLanguages, IsObject, WellKinded}
use nexlog_server.Handlers.Kinds.Kept.{KindsIn, WellKinded-evict, WellKinded-empty}
use nexlog_server.Handlers.Kinds.Answers.{
  Answers, AnswersOrFails, Answers-serve_content, AnswersOrFails-serve_languages,
  Answers-serve_side_panel,
}
use nexlog_server.Handlers.Routes.Kinds.{KindsAfter-mux}
use nexlog_server.Server.Safety.{stack_keeps}
use nexlog_server.Server.Boot.{Host, Server, listening, boot}
use nexlog_server.Server.Boot.Ready.{boot-IsReady}
use nexlog_server.Server.Life.{Event, request, clean_limiter, evict_cache, handler, happen, live}

module _ (host : Host) where
  WellKinded-happen :
      (s : Server host) (e : Event)
      → IsJwt host.packages.jwt
      → WellKinded s.app.cache
      → WellKinded (happen host s e).app.cache
  unfolding happen handler
  WellKinded-happen s (request r) ok h =
      stack_keeps host.rate_lib host.gzip_lib host.packages host.static KindsIn s.config r s.limiter
        s.app h (KindsAfter-mux host.packages host.static s.config.jwt_secret r s.app h ok)
  WellKinded-happen s (clean_limiter now) ok h = h
  WellKinded-happen s (evict_cache now) ok h = WellKinded-evict s.app.cache h now

  WellKinded-live :
      (events : List Event) (s : Server host)
      → IsJwt host.packages.jwt
      → WellKinded s.app.cache
      → WellKinded (live host s events).app.cache
  unfolding live
  WellKinded-live [] s ok h = h
  WellKinded-live (e ∷ events) s ok h =
      WellKinded-live events (happen host s e) ok (WellKinded-happen s e ok h)

  -- Whatever has happened since the boot, and whatever the database holds and its calls come to: a
  -- GET for the content is answered 200 with a payload, one for the side panel 200 with an object or
  -- null, and one for the languages 200 with an object of which each value is an object with a text
  -- for its flag and one for its name, or else 500 with an error. Each whether the answer comes from
  -- the cache, which three handlers share, or not.
  pub Answers-live :
      (db : Db (Schema Tables)) (s : Server host) (events : List Event) (r : Request)
      → IsJwt host.packages.jwt
      → (boot host db).0 ≡ listening s
      → r.method ≡ "GET"
      → let app = (live host s events).app in
        Answers host.packages IsContent (serve_content host.packages r app).0
        × Answers host.packages IsObject (serve_side_panel host.packages r app).0
        × AnswersOrFails host.packages IsLanguages (serve_languages host.packages r app).0
  Answers-live db s events r ok listens get =
      let empty = WellKinded-empty s.app.cache (boot-IsReady host db s listens).empty_cache in
      let kinds = WellKinded-live events s ok empty in
      let app = (live host s events).app in
      (
        Answers-serve_content host.packages r get app kinds,
        Answers-serve_side_panel host.packages r get app kinds,
        AnswersOrFails-serve_languages host.packages r get app kinds,
      )
