-- ===== src/Server.antt =====
-- cmd/server/main.go: the stack of the middleware around the routes. Sockets, signals and the
-- profiler's port are not modelled.
pub mod Safety
pub mod Headers
pub mod FirstBoot
pub mod Boot
pub mod Life
pub mod History
pub mod Settled
pub mod Eras
pub mod Kinds
pub mod Files
pub mod Starved
pub mod Shutdown
mod Tests
use nexlog_server.Base.{String}
use nexlog_server.Http.{Handler}
use nexlog_server.Config.{Config}
use nexlog_server.Middleware.RateLimit.{RateLib, RateLimiter, middleware}
use nexlog_server.Middleware.Cors.{cors}
use nexlog_server.Middleware.Security.{security_headers}
use nexlog_server.Middleware.Gzip.{GzipLib, gzip}
use nexlog_server.Handlers.{Packages, App}
use nexlog_server.Handlers.Routes.{Static, mux}

module _ (g : GzipLib) (pk : Packages) (static : Static) where
  -- The handler inside the rate limiter.
  unfoldable pub inner : Config → Handler App
  inner cfg = cors cfg.allowed_origins (security_headers (gzip g (mux pk static cfg.jwt_secret)))

module _ (lib : RateLib) (g : GzipLib) (pk : Packages) (static : Static) where
  unfoldable pub stack : Config → Handler (RateLimiter lib × App)
  unfolding inner
  stack cfg = middleware (inner g pk static cfg)
