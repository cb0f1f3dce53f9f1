-- ===== src/Server/Life.antt =====
-- cmd/server/main.go: the server from its boot on, as a sequence of requests and of the ticks of its
-- two goroutines, which clean up the limiter and the cache.
use Prim.Native.String.{len}
use nexlog_server.Base.{ℕ, ◌≤◌, String, ◌≡◌, refl, sym, ◌∙◌, List, [], ◌∷◌, subst, All}
use nexlog_server.Cache
use nexlog_server.Http.{Request, Handler}
use nexlog_server.Sql.{Db}
use nexlog_server.Migrate.{Schema}
use nexlog_server.Middleware.Auth.Laws.{IsJwt, HasToken}
use nexlog_server.Middleware.RateLimit
use nexlog_server.Middleware.RateLimit.{RateLimiter}
use nexlog_server.Repository.Tables.{Tables}
use nexlog_server.Handlers.{App}
use nexlog_server.Handlers.Routes.Protection.{Unwritten}
use nexlog_server.Service.Seed.Ready.{HasSite}
use nexlog_server.Server.{stack}
use nexlog_server.Server.Safety.{stack-Unwritten}
use nexlog_server.Server.Boot.{Host, Server, listening, boot}
use nexlog_server.Server.Boot.Ready.{boot-IsReady}

pub data Event : Type 0 where
  request : Request → Event
  clean_limiter : ℕ → Event
  evict_cache : ℕ → Event

module _ (host : Host) where
  -- srv.Handler
  unfoldable pub handler : Server host → Handler (RateLimiter host.rate_lib × App)
  handler s = stack host.rate_lib host.gzip_lib host.packages host.static s.config

  abbrev with_state : Server host → RateLimiter host.rate_lib × App → Server host
  with_state s (rl, app) = record s { limiter = rl; app = app }

  unfoldable pub happen : Server host → Event → Server host
  unfolding handler
  happen s (request r) = with_state s (handler s r (s.limiter, s.app)).1
  happen s (clean_limiter now) = record s { limiter = RateLimit.cleanup now s.limiter }
  happen s (evict_cache now) = record s {
    app = record s.app { cache = Cache.evict now s.app.cache };
  }

  unfoldable pub live : Server host → List Event → Server host
  unfolding happen
  live s [] = s
  live s (e ∷ events) = live (happen s e) events

  -- The event is no request with a valid token that was signed with the secret.
  abbrev pub Tokenless : String → Event → Type 0
  Tokenless secret (request r) = ¬ HasToken host.packages.jwt secret r
  Tokenless secret (clean_limiter now) = Unit
  Tokenless secret (evict_cache now) = Unit

  Unwritten-happen :
      (s : Server host) (e : Event)
      → IsJwt host.packages.jwt
      → Tokenless s.config.jwt_secret e
      → ((happen s e).config ≡ s.config) × Unwritten s.app (happen s e).app
  unfolding happen handler
  Unwritten-happen s (request r) ok no_token = (
    refl,
    stack-Unwritten host.rate_lib host.gzip_lib host.packages host.static s.config ok r s.limiter
        s.app no_token,
  )
  Unwritten-happen s (clean_limiter now) ok no_token = (refl, (refl, refl))
  Unwritten-happen s (evict_cache now) ok no_token = (refl, (refl, refl))

  Unwritten-live :
      (events : List Event) (s : Server host)
      → IsJwt host.packages.jwt
      → All (Tokenless s.config.jwt_secret) events
      → Unwritten s.app (live s events).app
  unfolding live
  Unwritten-live [] s ok none_bears = (refl, refl)
  Unwritten-live (e ∷ events) s ok (here, none_bears) =
      let (same_config, (tables, disk)) = Unwritten-happen s e ok here in
      let (later_tables, later_disk) =
        Unwritten-live events (happen s e) ok
          (subst (λ c. All (Tokenless c.jwt_secret) events) (sym same_config) none_bears) in
      (later_tables ∙ tables, later_disk ∙ disk)

  -- From the boot on, whatever is requested and in whatever order: as long as no request bears a
  -- valid token that was signed with the secret, which has at least 32 bytes, the tables stay as the
  -- boot left them, with a site, and so do the uploaded files.
  pub live-Unwritten :
      (db : Db (Schema Tables)) (s : Server host) (events : List Event)
      → IsJwt host.packages.jwt
      → (boot host db).0 ≡ listening s
      → All (Tokenless s.config.jwt_secret) events
      → (32 ≤ len s.config.jwt_secret)
        × ((live s events).app.db.tables ≡ (boot host db).1.tables.state)
        × HasSite (live s events).app.db.tables
        × ((live s events).app.disk ≡ s.app.disk)
  live-Unwritten db s events ok listens none_bears =
      let ready = boot-IsReady host db s listens in
      let (tables, disk) = Unwritten-live events s ok none_bears in
      (
        ready.long_secret,
        tables ∙ ready.same_tables,
        subst HasSite (sym tables) ready.has_site,
        disk,
      )
