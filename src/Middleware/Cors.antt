-- ===== src/Middleware/Cors.antt =====
-- internal/middleware/cors.go
pub mod Laws
pub mod Origins
use nexlog_server.Base.{String, List, [], ◌∷◌, ◌++◌, Bool, true, false, ◌||◌, ◌==◌, if◌then◌else◌}
use nexlog_server.Http.{Handler, Request, Action, set_header, write_header, get_header}
use nexlog_server.Text.{split, trim_space}

-- The keys of the map `origins`: the trimmed parts that are not empty.
unfoldable pub add_origins : List String → List String
add_origins [] = []
add_origins (o ∷ os) =
    let o' = trim_space o in if o' == "" then add_origins os else o' ∷ add_origins os

unfoldable pub parse_origins : String → List String
unfolding add_origins
parse_origins allowed = add_origins (split b',' allowed)

-- `origins[o]`
unfoldable pub has_origin : String → List String → Bool
has_origin o [] = false
has_origin o (p ∷ os) = p == o || has_origin o os

abbrev pub is_nil : List String → Bool
is_nil [] = true
is_nil (o ∷ os) = false

-- Whether the answer names the origin as allowed.
unfoldable pub origin_allowed : List String → String → Bool
unfolding has_origin
origin_allowed origins origin =
    is_nil origins || has_origin origin origins || has_origin "*" origins

unfoldable pub cors_actions : List String → Request → List Action
cors_actions origins r =
    let origin = get_header "Origin" r.header in
    (if origin_allowed origins origin
      then set_header "Access-Control-Allow-Origin" origin ∷ set_header "Vary" "Origin" ∷ []
      else [])
    ++ set_header "Access-Control-Allow-Methods" "GET, POST, PUT, DELETE, OPTIONS"
      ∷ set_header "Access-Control-Allow-Headers" "Content-Type, Authorization"
      ∷ set_header "Access-Control-Max-Age" "86400"
      ∷ []

module _ {ℓ} {W : Type ℓ} where
  unfoldable pub cors : String → Handler W → Handler W
  unfolding parse_origins cors_actions
  cors allowed next r w =
      let first = cors_actions (parse_origins allowed) r in
      let (acts, w') = next r w in
      if r.method == "OPTIONS" then (first ++ write_header 204 ∷ [], w) else (first ++ acts, w')
