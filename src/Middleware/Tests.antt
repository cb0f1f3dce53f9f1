-- ===== src/Middleware/Tests.antt =====
-- The middleware around concrete handlers.

use nexlog_server.Text.{has_char}
use nexlog_server.Text.Split.{join_with}
use nexlog_server.Middleware.Cors.{parse_origins, origin_allowed}
use nexlog_server.Middleware.Cors.Origins.{comma, listed, all_blank, origin_allowed-parse_origins}
use nexlog_server.Base.{String, ◌≡◌, refl, ◌||◌, ◌⊎◌, ap, List, [], ◌∷◌, not, if◌then◌else◌}
use nexlog_server.GoMap
use nexlog_server.Int.{pos}
use nexlog_server.Text.{has_prefix, contains}
use nexlog_server.Http.{Request, respond, perform, body_allowed}
use nexlog_server.Http.Laws.{concat}
use nexlog_server.Samples.{
  plain_jwt, plain_jwt-IsJwt, no_header, request_of, counting, copying, draining,
}
use nexlog_server.Middleware.Auth.{auth}
use nexlog_server.Middleware.Auth.Laws.{HasToken, auth_cases}
use nexlog_server.Middleware.Cors.{cors}
use nexlog_server.Middleware.Cors.Laws.{allow_origin, named, cors-preflight}
use nexlog_server.Middleware.Gzip.{gzip}
use nexlog_server.Middleware.Gzip.Laws.{IsGzip, stream, body-gzip}
use nexlog_server.Middleware.RateLimit.{middleware, limited, real_ip}
use nexlog_server.Middleware.RateLimit.Requests.{
  Event, request, tick, run, bucket, fresh_or, middleware-run,
}

abbrev with_token : Request
with_token =
    request_of "GET" "/api/admin/site" (GoMap.insert "Authorization" "Bearer key" no_header) "" 5

auth_cases_example :
    (HasToken plain_jwt "key" with_token
      × (auth plain_jwt "key" counting with_token 3 ≡ counting with_token 3))
    ⊎ (((respond (auth plain_jwt "key" counting with_token 3).0).status ≡ 401)
        × ((auth plain_jwt "key" counting with_token 3).1 ≡ 3))
auth_cases_example = auth_cases plain_jwt "key" plain_jwt-IsJwt counting with_token 3

abbrev origins : String
origins = "https://nexlog.example, https://www.nexlog.example"

abbrev preflight : Request
preflight =
    request_of "OPTIONS" "/api/content" (GoMap.insert "Origin" "https://nexlog.example" no_header)
      "" 5

cors-preflight_example :
    ((respond (cors origins counting preflight 3).0).status ≡ 204)
    × ((cors origins counting preflight 3).1 ≡ 3)
    × ((respond (cors origins counting preflight 3).0).header allow_origin
        ≡ named origins preflight)
cors-preflight_example = cors-preflight origins counting preflight 3 refl

stream-copying : (bs : List String) → stream copying tt bs ≡ bs
unfolding stream
stream-copying [] = refl
stream-copying (b ∷ bs) = ap (λ l. b ∷ l) (stream-copying bs)

copying-IsGzip : IsGzip copying
copying-IsGzip = record {
  start = tt;
  opens = refl;
  decodes = λ bs. ap concat (stream-copying bs);
  at_once = λ b. (b, [], refl);
}

abbrev zipping : Request
zipping = request_of "GET" "/" (GoMap.insert "Accept-Encoding" "gzip, br" no_header) "" 5

body-gzip_example :
    copying.decode (respond (gzip copying counting zipping 3).0).body
    ≡ (respond (counting zipping 3).0).body
unfolding perform contains body_allowed
body-gzip_example = body-gzip copying copying-IsGzip counting zipping 3 refl refl tt

abbrev events : List Event
events = request (request_of "GET" "/api/content" no_header "" 5) ∷ tick 3 ∷ []

middleware-run_example : middleware counting with_token (run draining (pos 120) events, 3) ≡ (
    if not (has_prefix with_token.path "/api/")
    then ((counting with_token 3).0, (run draining (pos 120) events, (counting with_token 3).1))
    else if (draining.allow
        (with_token.clock 1)
        (fresh_or draining (pos 120) (bucket draining (pos 120) (real_ip with_token) events))).0
    then (
      (counting with_token 3).0,
      (run draining (pos 120) (request with_token ∷ events), (counting with_token 3).1),
    )
    else (limited, (run draining (pos 120) (request with_token ∷ events), 3)))
middleware-run_example = middleware-run draining (pos 120) counting with_token events 3

abbrev some_origins : List String
some_origins = "https://a.example" ∷ " https://b.example" ∷ []

origin_allowed-parse_origins_example :
    origin_allowed (parse_origins (join_with comma some_origins)) "https://b.example"
    ≡ (all_blank some_origins || listed "https://b.example" some_origins || listed "*" some_origins)
unfolding has_char
origin_allowed-parse_origins_example =
    origin_allowed-parse_origins "https://a.example" (" https://b.example" ∷ []) "https://b.example"
      (refl, (refl, tt)) (λ h. cc)
