-- ===== src/Middleware/Security.antt =====
-- internal/middleware/security.go: SecurityHeaders and AddCacheHeaders.
pub mod Laws
use Prim.Native.String
use nexlog_server.Base.{String, List, [], ◌∷◌, ◌++◌}
use nexlog_server.Http.{Handler, Action, set_header}

abbrev pub content_security_policy : String
content_security_policy =
    "default-src 'self'; style-src 'self' 'unsafe-inline' https://fonts.googleapis.com https://cdnjs.cloudflare.com; font-src 'self' https://fonts.gstatic.com https://cdnjs.cloudflare.com; img-src 'self' data: https:; script-src 'self' 'unsafe-inline'; connect-src 'self';"

unfoldable pub security_actions : List Action
security_actions =
    set_header "X-Content-Type-Options" "nosniff"
    ∷ set_header "X-Frame-Options" "SAMEORIGIN"
    ∷ set_header "X-XSS-Protection" "1; mode=block"
    ∷ set_header "Referrer-Policy" "strict-origin-when-cross-origin"
    ∷ set_header "Permissions-Policy" "camera=(), microphone=(), geolocation=()"
    ∷ set_header "Content-Security-Policy" content_security_policy
    ∷ []

module _ {ℓ} {W : Type ℓ} where
  unfoldable pub security_headers : Handler W → Handler W
  unfolding security_actions
  security_headers next r w = let (acts, w') = next r w in (security_actions ++ acts, w')

  unfoldable pub add_cache_headers : String → Handler W → Handler W
  add_cache_headers max_age next r w =
      let (acts, w') = next r w in
      (set_header "Cache-Control" (String.◌++◌ "public, max-age=" max_age) ∷ acts, w')
