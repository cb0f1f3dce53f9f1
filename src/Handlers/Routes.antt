-- ===== src/Handlers/Routes.antt =====
-- internal/handlers/handlers.go: RegisterRoutes, and the choice of a handler by http.ServeMux.
pub mod Protection
pub mod Effects
pub mod Kinds
pub mod Files
pub mod Headers
mod Tests
use Prim.Native.String
use Prim.Native.String.{len}
use nexlog_server.Base.{
  ℕ, String, Bool, List, [], ◌∷◌, Option, none, some, not, ◌&&◌, ltb, ◌==◌, if◌then◌else◌,
}
use nexlog_server.Text.{clean_path, has_prefix, has_suffix, strip_prefix, trim_prefix}
use nexlog_server.Http.{Request, Action, Handler}
use nexlog_server.Middleware.Auth.{auth}
use nexlog_server.Middleware.Security.{add_cache_headers}
use nexlog_server.Handlers.{Packages, App, Disk}
use nexlog_server.Handlers.Public.{serve_content, serve_languages, serve_side_panel, serve_health}
use nexlog_server.Handlers.Login.{login, change_password}
use nexlog_server.Handlers.Upload.{upload}
use nexlog_server.Handlers.Admin.{
  admin_site, admin_hero, admin_stats, admin_about, admin_services, admin_news, admin_partners,
  admin_contact, admin_languages, admin_side_panel,
}

-- A handler of a pattern. `guarded` is one that RegisterRoutes wraps in `auth`.
pub data Guarded : Type 0 where
  password files site hero stats about services news partners contact : Guarded
  all_languages panel : Guarded

pub data Endpoint : Type 0 where
  health content languages side_panel sign_in : Endpoint
  guarded : Guarded → Endpoint
  uploads admin_page fallback : Endpoint

-- The patterns, in the order of the source.
pub patterns : List (String × Endpoint)
patterns =
    ("/health", health)
    ∷ ("/api/content", content)
    ∷ ("/api/languages", languages)
    ∷ ("/api/sidepanel", side_panel)
    ∷ ("/api/admin/login", sign_in)
    ∷ ("/api/admin/change-password", guarded password)
    ∷ ("/api/admin/upload", guarded files)
    ∷ ("/api/admin/site", guarded site)
    ∷ ("/api/admin/hero", guarded hero)
    ∷ ("/api/admin/stats", guarded stats)
    ∷ ("/api/admin/about", guarded about)
    ∷ ("/api/admin/services", guarded services)
    ∷ ("/api/admin/news", guarded news)
    ∷ ("/api/admin/partners", guarded partners)
    ∷ ("/api/admin/contact", guarded contact)
    ∷ ("/api/admin/languages", guarded all_languages)
    ∷ ("/api/admin/sidepanel", guarded panel)
    ∷ ("/uploads/", uploads)
    ∷ ("/admin", admin_page)
    ∷ ("/admin/", admin_page)
    ∷ ("/", fallback)
    ∷ []

exact : String → List (String × Endpoint) → Option Endpoint
exact path [] = none
exact path ((p, e) ∷ l) = if p == path then some e else exact path l

-- A pattern that ends in a slash matches every path below it.
abbrev covers : String → String → Bool
covers path p = has_suffix p "/" && has_prefix path p

abbrev longer : ℕ × Endpoint → Option (ℕ × Endpoint) → Option (ℕ × Endpoint)
longer a none = some a
longer (n, e) (some (m, f)) = if ltb n m then some (m, f) else some (n, e)

-- The longest pattern that covers the path.
subtree : String → List (String × Endpoint) → Option (ℕ × Endpoint)
subtree path [] = none
subtree path ((p, e) ∷ l) =
    if covers path p then longer (len p, e) (subtree path l) else subtree path l

pub data Found : Type 0 where
  serve : Endpoint → Found
  redirect_to : String → Found
  not_found : Found

abbrev subtree_or_redirect : String → Option Endpoint → Option (ℕ × Endpoint) → Found
subtree_or_redirect path (some e) best = redirect_to (String.◌++◌ path "/")
subtree_or_redirect path none none = not_found
subtree_or_redirect path none (some (n, e)) = serve e

abbrev chosen : String → Option Endpoint → Found
chosen path (some e) = serve e
chosen path none =
    subtree_or_redirect path (exact (String.◌++◌ path "/") patterns) (subtree path patterns)

-- The choice of http.ServeMux: a path that is not clean is redirected; an exact pattern comes
-- before any other, then a redirect to the path with a slash where that is a pattern, then the
-- longest pattern that covers the path.
unfoldable pub find : String → Found
unfolding patterns exact subtree strip_prefix has_suffix clean_path
find path =
    if not (clean_path path == path)
    then redirect_to (clean_path path)
    else chosen path (exact path patterns)

-- The path of a CONNECT request is used as it is.
unfoldable pub route : Request → Found
unfolding find patterns exact subtree strip_prefix has_suffix
route r = if r.method == "CONNECT" then chosen r.path (exact r.path patterns) else find r.path

-- What the program uses of net/http to serve files and redirects; none of it writes to the disk.
pub record Static : Type 0 where
  pub serve_file : String → Request → Disk → List Action
  pub file_server : Request → Disk → List Action
  pub upload_server : Request → Disk → List Action
  pub in_public : String → Disk → Bool
  pub redirect : String → Request → List Action
  pub not_found : Request → List Action

module _ (pk : Packages) (static : Static) (secret : String) where
  change : Guarded → Handler App
  change password = change_password pk
  change files = upload pk
  change site = admin_site pk
  change hero = admin_hero pk
  change stats = admin_stats pk
  change about = admin_about pk
  change services = admin_services pk
  change news = admin_news pk
  change partners = admin_partners pk
  change contact = admin_contact pk
  change all_languages = admin_languages pk
  change panel = admin_side_panel pk

  abbrev serve_uploads : Handler App
  serve_uploads r app =
      (static.upload_server (record r { path = trim_prefix r.path "/uploads/" }) app.disk, app)

  abbrev serve_public : Handler App
  serve_public r app = (static.file_server r app.disk, app)

  abbrev serve_fallback : Handler App
  serve_fallback r app =
      if static.in_public r.path app.disk && not (r.path == "/")
      then add_cache_headers "86400" serve_public r app
      else (static.serve_file "index.html" r app.disk, app)

  handler_of : Endpoint → Handler App
  handler_of health = serve_health pk
  handler_of content = serve_content pk
  handler_of languages = serve_languages pk
  handler_of side_panel = serve_side_panel pk
  handler_of sign_in = login pk secret
  handler_of (guarded g) = auth pk.jwt secret (change g)
  handler_of uploads = add_cache_headers "604800" serve_uploads
  handler_of admin_page = λ r app. (static.serve_file "admin.html" r app.disk, app)
  handler_of fallback = serve_fallback

  abbrev mux_found : Found → Handler App
  mux_found (serve e) r app = handler_of e r app
  mux_found (redirect_to p) r app = (static.redirect p r, app)
  mux_found not_found r app = (static.not_found r, app)

  -- The multiplexer with the routes of the program.
  unfoldable pub mux : Handler App
  unfolding route handler_of change
  mux r app = mux_found (route r) r app
