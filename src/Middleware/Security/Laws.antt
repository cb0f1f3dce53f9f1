-- ===== src/Middleware/Security/Laws.antt =====
-- The security headers reach every response.
use nexlog_server.Base.{String, ◌≡◌, refl, List, [], ◌∷◌, some, All}
use nexlog_server.GoMap
use nexlog_server.Http.{Handler, Request, respond}
use nexlog_server.Http.Laws.{header_from, header-respond}
use nexlog_server.Http.Untouched.{Keeps, header_from-Keeps}
use nexlog_server.Middleware.Security.{content_security_policy, security_actions, security_headers}

-- The entries, as the code states them.
abbrev pub promised : List (String × String)
promised =
    ("X-Content-Type-Options", "nosniff")
    ∷ ("X-Frame-Options", "SAMEORIGIN")
    ∷ ("X-XSS-Protection", "1; mode=block")
    ∷ ("Referrer-Policy", "strict-origin-when-cross-origin")
    ∷ ("Permissions-Policy", "camera=(), microphone=(), geolocation=()")
    ∷ ("Content-Security-Policy", content_security_policy)
    ∷ []

module _ {ℓ} {W : Type ℓ} (next : Handler W) (r : Request) (w : W) where
  bears :
      (k v : String)
      → Keeps k v (next r w).0
      → header_from GoMap.empty security_actions k ≡ some v
      → (respond (security_headers next r w).0).header k ≡ some v
  unfolding security_headers header_from
  bears k v kept set =
      rw (header-respond (security_headers next r w).0)
        (header_from-Keeps k v (header_from GoMap.empty security_actions) (next r w).0 kept set)

  -- Whatever status the wrapped handler sends, and whether or not it sends one, the response bears
  -- each of the six security headers, if the handler does not itself delete one or set it to
  -- another value.
  pub security_headers_lem :
      All (λ e. Keeps e.0 e.1 (next r w).0) promised
      → All (λ e. (respond (security_headers next r w).0).header e.0 ≡ some e.1) promised
  unfolding header_from security_headers
  security_headers_lem (a, (b, (c, (d, (e, (f, _)))))) = (
    bears _ _ a refl,
    (
      bears _ _ b refl,
      (bears _ _ c refl, (bears _ _ d refl, (bears _ _ e refl, (bears _ _ f refl, tt)))),
    ),
  )
