-- ===== src/Server/Files.antt =====
-- cmd/server/main.go: what becomes of the files of the upload directory while the server runs.
use nexlog_server.Base.{String, ◌≡◌, ap, List, [], ◌∷◌, inl}
use nexlog_server.Sql.{Db}
use nexlog_server.Migrate.{Schema}
use nexlog_server.Middleware.Auth.Laws.{IsJwt}
use nexlog_server.Repository.Tables.{Tables}
use nexlog_server.GoMap.{GoMap}
use nexlog_server.Handlers.Routes.Files.{Kept, KeptIn, KeptAfter-mux}
use nexlog_server.Server.Safety.{stack_keeps}
use nexlog_server.Server.Boot.{Host, Server, listening, boot}
use nexlog_server.Server.Boot.Ready.{boot-IsReady}
use nexlog_server.Server.Life.{Event, request, clean_limiter, evict_cache, handler, happen, live}

module _ (host : Host) (old : GoMap String) (name : String) where
  Kept-happen :
      (s : Server host) (e : Event)
      → IsJwt host.packages.jwt
      → KeptIn old name s.app
      → KeptIn old name (happen host s e).app
  unfolding happen handler
  Kept-happen s (request r) ok h =
      stack_keeps host.rate_lib host.gzip_lib host.packages host.static (KeptIn old name) s.config r
        s.limiter s.app h
        (KeptAfter-mux host.packages host.static s.config.jwt_secret r old name s.app h ok)
  Kept-happen s (clean_limiter now) ok h = h
  Kept-happen s (evict_cache now) ok h = h

  Kept-events :
      (events : List Event) (s : Server host)
      → IsJwt host.packages.jwt
      → KeptIn old name s.app
      → KeptIn old name (live host s events).app
  unfolding live
  Kept-events [] s ok h = h
  Kept-events (e ∷ events) s ok h = Kept-events events (happen host s e) ok (Kept-happen s e ok h)

-- Whatever is requested after the boot, with a token or without, and in whatever order: each file of
-- the upload directory is as it was before the boot, or else it is there, and its name has no slash
-- and ends in one of the six allowed extensions. So no file is ever removed, and none of another
-- kind or outside the directory is made or changed.
pub Kept-live :
    (host : Host) (db : Db (Schema Tables)) (s : Server host) (events : List Event) (name : String)
    → IsJwt host.packages.jwt
    → (boot host db).0 ≡ listening s
    → Kept name host.disk.files (live host s events).app.disk.files
Kept-live host db s events name ok listens =
    let ready = boot-IsReady host db s listens in
    Kept-events host host.disk.files name events s ok (inl (ap (λ d. d.files name) ready.same_disk))
