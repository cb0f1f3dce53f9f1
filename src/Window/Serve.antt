-- ===== src/Window/Serve.antt =====
-- cmd/server/middleware.go: the handlers that the package wraps around others, none of which the
-- server uses: securityHeaders, gzipMiddleware, rateLimitMiddleware and realIP.
pub mod Runs
use nexlog_server.Base.{String, not, List, [], ◌∷◌, ◌++◌, if◌then◌else◌, ◌==◌}
use nexlog_server.Http.{Request, Handler, Action, set_header, get_header, http_error}
use nexlog_server.Text.{split, has_prefix, contains, split_host, trim_space}
use nexlog_server.Middleware.Security.{content_security_policy}
use nexlog_server.Middleware.Gzip.{GzipLib, compressed}
use nexlog_server.Window.{WindowLimiter, allow}

-- parts[0]: strings.Split with a separator returns at least one text.
abbrev pub first : List String → String
first [] = ""
first (s ∷ l) = s

unfoldable pub real_ip : Request → String
real_ip r =
    let xff = get_header "X-Forwarded-For" r.header in
    let xri = get_header "X-Real-IP" r.header in
    if not (xff == "")
    then trim_space (first (split b',' xff))
    else if not (xri == "")
    then xri
    else split_host r.remote_addr

-- Without the Permissions-Policy of internal/middleware.
abbrev pub security_actions : List Action
security_actions =
    set_header "X-Content-Type-Options" "nosniff"
    ∷ set_header "X-Frame-Options" "SAMEORIGIN"
    ∷ set_header "X-XSS-Protection" "1; mode=block"
    ∷ set_header "Referrer-Policy" "strict-origin-when-cross-origin"
    ∷ set_header "Content-Security-Policy" content_security_policy
    ∷ []

abbrev pub limited : List Action
limited = set_header "Retry-After" "60" ∷ http_error "{\"error\":\"Too many requests\"}" 429

abbrev pub passed : List Action → List Action
passed acts = set_header "X-RateLimit-Limit" "100" ∷ acts

module _ {ℓ} {W : Type ℓ} where
  abbrev pub security_headers : Handler W → Handler W
  security_headers next r w = let (acts, w') = next r w in (security_actions ++ acts, w')

  unfoldable pub gzip_middleware : GzipLib → Handler W → Handler W
  gzip_middleware g next r w =
      let (acts, w') = next r w in
      if not (contains (get_header "Accept-Encoding" r.header) "gzip")
      then (acts, w')
      else (compressed g g.new_writer_level acts, w')

  unfoldable pub rate_limit_middleware : Handler W → Handler (WindowLimiter × W)
  rate_limit_middleware next r (rl, w) =
      let (served, w') = next r w in
      let (allowed, rl') = allow (r.clock 0) (real_ip r) rl in
      if not (has_prefix r.path "/api/")
      then (served, (rl, w'))
      else if not allowed
      then (limited, (rl', w))
      else (passed served, (rl', w'))
