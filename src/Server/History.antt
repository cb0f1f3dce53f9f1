-- ===== src/Server/History.antt =====
-- cmd/server/main.go: what the tables have been through while the server ran.
use nexlog_server.Base.{String, ◌≡◌, refl, List, [], ◌∷◌, subst, some, inl, inr}
use nexlog_server.Http.{Request}
use nexlog_server.Sql.{Db}
use nexlog_server.Migrate.{Schema}
use nexlog_server.Middleware.Auth.Laws.{IsJwt, HasToken}
use nexlog_server.Repository.Tables.{Tables}
use nexlog_server.Handlers.{Packages}
use nexlog_server.Handlers.Routes.{Guarded, guarded, serve, route}
use nexlog_server.Handlers.Routes.Effects.{made_by, MuxEffect, mux-MuxEffect}
use nexlog_server.Server.Safety.{stack_keeps}
use nexlog_server.Server.Boot.{Host, Server, listening, boot}
use nexlog_server.Server.Boot.Ready.{boot-IsReady}
use nexlog_server.Server.Life.{Event, request, clean_limiter, evict_cache, happen, live, handler}

-- The tables before and after some events: the abstract view of the server. An event changes nothing,
-- or it is a request for a guarded route with a valid token, whose whole effect is there.
pub data History (pk : Packages) (secret : String) : List Event → Tables → Tables → Type 0 where
  nothing : {t : Tables} → History pk secret [] t t
  unchanged :
      {events : List Event} {t u : Tables}
      → (e : Event) → History pk secret events t u
      → History pk secret (e ∷ events) t u
  changed :
      {events : List Event} {t u v : Tables}
      → (r : Request) (g : Guarded) → route r ≡ serve (guarded g)
      → HasToken pk.jwt secret r
      → made_by pk r g t ≡ some u
      → History pk secret events u v
      → History pk secret (request r ∷ events) t v

module _ (host : Host) where
  happen_config : (s : Server host) (e : Event) → (happen host s e).config ≡ s.config
  unfolding happen
  happen_config s (request r) = refl
  happen_config s (clean_limiter now) = refl
  happen_config s (evict_cache now) = refl

  MuxEffect-happen :
      (s : Server host) (r : Request)
      → IsJwt host.packages.jwt
      → MuxEffect host.packages host.static s.config.jwt_secret r s.app.db.tables
          (happen host s (request r)).app.db.tables
  unfolding happen handler
  MuxEffect-happen s r ok =
      stack_keeps host.rate_lib host.gzip_lib host.packages host.static
        (λ app.
          MuxEffect host.packages host.static s.config.jwt_secret r s.app.db.tables app.db.tables)
        s.config r s.limiter s.app (inl refl)
        (mux-MuxEffect host.packages host.static s.config.jwt_secret r ok s.app)

  History-cons :
      (e : Event) (events : List Event) (s : Server host) (v : Tables)
      → IsJwt host.packages.jwt
      → History host.packages s.config.jwt_secret events (happen host s e).app.db.tables v
      → History host.packages s.config.jwt_secret (e ∷ events) s.app.db.tables v
  unfolding happen
  History-cons (clean_limiter now) events s v ok later = unchanged (clean_limiter now) later
  History-cons (evict_cache now) events s v ok later = unchanged (evict_cache now) later
  History-cons (request r) events s v ok later = elim (MuxEffect-happen s r ok) [
    | inl same ↦
        unchanged (request r)
          (subst (λ t. History host.packages s.config.jwt_secret events t v) same later)
    | inr (g, found, bears, made) ↦ changed r g found bears made later
  ]

  pub History-live :
      (events : List Event) (s : Server host)
      → IsJwt host.packages.jwt
      → History host.packages s.config.jwt_secret events s.app.db.tables
          (live host s events).app.db.tables
  unfolding live
  History-live [] s ok = nothing
  History-live (e ∷ events) s ok = History-cons e events s _ ok (
      subst
        (λ c.
          History host.packages c.jwt_secret events (happen host s e).app.db.tables
            (live host (happen host s e) events).app.db.tables)
        (happen_config s e) (History-live events (happen host s e) ok))

  -- From the boot on, whatever is requested and in whatever order, and whatever the database's calls
  -- come to: the tables go from what the boot left through whole effects of requests for guarded
  -- routes that bore a valid token, one after the other in the order of the requests, and through
  -- nothing else.
  pub boot-History :
      (db : Db (Schema Tables)) (s : Server host) (events : List Event)
      → IsJwt host.packages.jwt
      → (boot host db).0 ≡ listening s
      → History host.packages s.config.jwt_secret events
          (boot host db).1.tables.state
          (live host s events).app.db.tables
  boot-History db s events ok listens =
      subst
        (λ t. History host.packages s.config.jwt_secret events t (live host s events).app.db.tables)
        (boot-IsReady host db s listens).same_tables (History-live events s ok)
