-- ===== src/Server/Safety.antt =====
-- What the whole stack keeps.
use nexlog_server.Base.{String, refl, Bool-cases, inl, inr, ◌==◌}
use nexlog_server.Http.{Request, Handler, get_header}
use nexlog_server.Text.{has_prefix, contains}
use nexlog_server.Config.{Config}
use nexlog_server.Middleware.Auth.Laws.{IsJwt, HasToken}
use nexlog_server.Middleware.RateLimit.{RateLib, RateLimiter, middleware, admit}
use nexlog_server.Middleware.Cors.{cors}
use nexlog_server.Middleware.Security.{security_headers}
use nexlog_server.Middleware.Gzip.{GzipLib, gzip}
use nexlog_server.Handlers.{Packages, App}
use nexlog_server.Handlers.Routes.{Static, mux}
use nexlog_server.Handlers.Routes.Protection.{Unwritten, mux-Unwritten}
use nexlog_server.Server.{inner, stack}

-- Each wrapper leaves the state as it was or as the wrapped handler does.
module _ {ℓ} (P : App → Type ℓ) (r : Request) (app : App) (next : Handler App) (before : P app)
    (kept : P (next r app).1) where
  gzip_keeps : (g : GzipLib) → P (gzip g next r app).1
  unfolding gzip
  gzip_keeps g = elim (Bool-cases (contains (get_header "Accept-Encoding" r.header) "gzip")) [
    | inl accepts ↦ rw (accepts, gzip) kept
    | inr plain ↦ rw (plain, gzip) kept
  ]

  security_headers_keeps : P (security_headers next r app).1
  unfolding security_headers
  security_headers_keeps = kept

  cors_keeps : (allowed : String) → P (cors allowed next r app).1
  unfolding cors
  cors_keeps allowed = elim (Bool-cases (r.method == "OPTIONS")) [
    | inl options ↦ rw (options, cors) before
    | inr other ↦ rw (other, cors) kept
  ]

  middleware_keeps : (lib : RateLib) (rl : RateLimiter lib) → P (middleware next r (rl, app)).1.1
  unfolding middleware
  middleware_keeps lib rl = elim (Bool-cases (has_prefix r.path "/api/")) [
    | inl api ↦ elim (Bool-cases (admit r rl).0) [
      | inl allowed ↦ rw (api, allowed, middleware) kept
      | inr refused ↦ rw (api, refused, middleware) before
    ]
    | inr other ↦ rw (other, middleware) kept
  ]

module _ (lib : RateLib) (g : GzipLib) (pk : Packages) (static : Static) where
  -- What holds of the state before a request and after the multiplexer holds after the whole stack.
  pub stack_keeps {ℓ} :
      (P : App → Type ℓ) (cfg : Config) (r : Request) (rl : RateLimiter lib) (app : App)
      → P app
      → P (mux pk static cfg.jwt_secret r app).1
      → P (stack lib g pk static cfg r (rl, app)).1.1
  unfolding stack inner
  stack_keeps P cfg r rl app before routes =
      let zipped = gzip_keeps P r app (mux pk static cfg.jwt_secret) before routes g in
      let secured = security_headers_keeps P r app _ before zipped in
      let shared = cors_keeps P r app _ before secured cfg.allowed_origins in
      middleware_keeps P r app _ before shared lib rl

  -- Through the whole stack of the server, a request without a valid HMAC token that was signed
  -- with the configured secret changes neither a table nor a file, whatever its path, method,
  -- headers and body, and whatever the limiter holds.
  pub stack-Unwritten :
      (cfg : Config) (ok : IsJwt pk.jwt) (r : Request) (rl : RateLimiter lib) (app : App)
      → ¬ HasToken pk.jwt cfg.jwt_secret r
      → Unwritten app (stack lib g pk static cfg r (rl, app)).1.1
  stack-Unwritten cfg ok r rl app no_token =
      stack_keeps (Unwritten app) cfg r rl app (refl, refl)
        (mux-Unwritten pk static cfg.jwt_secret ok r app no_token)
