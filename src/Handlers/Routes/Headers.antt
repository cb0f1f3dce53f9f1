-- ===== src/Handlers/Routes/Headers.antt =====
-- Which header entries the handlers leave alone.
use nexlog_server.Base.{
  ℕ, String, ◌≡◌, refl, sym, subst, ◌≢◌, List, Option, none, some, Bool, true, false, not, ◌||◌,
  if◌then◌else◌, ◌==◌, Bool-cases, Option-cases, ◌&&◌, inl, inr, ltb,
}
use nexlog_server.Http.{Request, Action, Handler, http_error, get_header}
use nexlog_server.Http.Untouched.{Keeps}
use nexlog_server.Cache
use nexlog_server.Json.{Fields}
use nexlog_server.Sql.{Err}
use nexlog_server.Service
use nexlog_server.Middleware.Auth.{auth, key_func}
use nexlog_server.Text.{strip_prefix}
use nexlog_server.Middleware.Security.{add_cache_headers}
use nexlog_server.Handlers.{
  Packages, App, Reply, Form, Disk, too_large, no_file, image, write_json, call_db, limited_body,
}
use nexlog_server.Handlers.Public.{
  serve_content, serve_languages, serve_side_panel, serve_health, content_or, answer_object,
  object_or,
}
use nexlog_server.Handlers.Login.{login, change_password, check_password, is_error}
use nexlog_server.Handlers.Upload.{upload, from_form, one_of, allowed_types, stored_name}
use nexlog_server.Text.{ext}
use Prim.Native.String.{len}
use nexlog_server.Handlers.Admin.{
  admin_put, finish_put, admin_site, admin_hero, admin_stats, admin_about, admin_services,
  admin_news, admin_partners, admin_contact, admin_languages, admin_side_panel,
}
use nexlog_server.Handlers.Routes.{
  Static, Guarded, password, files, site, hero, stats, about, services, news, partners, contact,
  all_languages, panel, Endpoint, health, content, languages, side_panel, sign_in, guarded, uploads,
  admin_page, fallback, Found, serve, redirect_to, not_found, route, change, handler_of, mux_found,
  mux,
}

module _ {ℓ} {W : Type ℓ} (k v : String) where
  Keeps-if :
      (b : Bool) (x y : List Action × W)
      → Keeps k v x.0
      → Keeps k v y.0
      → Keeps k v (if b then x else y).0
  Keeps-if true x y h g = h
  Keeps-if false x y h g = g

module _ (pk : Packages) (k v : String) (content_type : "Content-Type" ≢ k) where
  Keeps-write_json : (code : ℕ) (x : Reply) → Keeps k v (write_json pk code x)
  unfolding write_json
  Keeps-write_json code x = (λ e. absurd (content_type e), tt)

  Keeps-content : (r : Request) (app : App) → Keeps k v (serve_content pk r app).0
  unfolding serve_content
  Keeps-content r app =
      Keeps-if k v (not (r.method == "GET")) _ _ (Keeps-write_json 405 _)
        (cached (Cache.get (r.clock 3) "content" app.cache))
    where
      cached : (o : Option Reply) → Keeps k v (content_or pk o r app).0
      cached none = Keeps-write_json 200 _
      cached (some x) = Keeps-write_json 200 x

  answered :
      (r : Request) (key : String) (o : Option Reply) (result : (Option Fields × Err) × App)
      (app : App)
      → Keeps k v (object_or pk o (answer_object pk r key result) app).0
  answered r key (some x) result app = Keeps-write_json 200 x
  answered r key none ((x, none), app') app = Keeps-write_json 200 _
  answered r key none ((x, some e), app') app = Keeps-write_json 500 _

  Keeps-languages : (r : Request) (app : App) → Keeps k v (serve_languages pk r app).0
  unfolding serve_languages
  Keeps-languages r app =
      Keeps-if k v (not (r.method == "GET")) _ _ (Keeps-write_json 405 _)
        (answered r "languages" (Cache.get (r.clock 3) "languages" app.cache) _ app)

  Keeps-side_panel : (r : Request) (app : App) → Keeps k v (serve_side_panel pk r app).0
  unfolding serve_side_panel
  Keeps-side_panel r app =
      Keeps-if k v (not (r.method == "GET")) _ _ (Keeps-write_json 405 _)
        (answered r "sidepanel" (Cache.get (r.clock 3) "sidepanel" app.cache) _ app)

  checked :
      (secret : String) (r : Request) (word : String) (result : (String × Err) × App)
      → Keeps k v (check_password pk secret r word result).0
  checked secret r word ((hash, e), app) =
      Keeps-if k v (is_error e || not (pk.compare_password hash word)) _ _ (Keeps-write_json 401 _)
        (Keeps-write_json 200 _)

  Keeps-login : (secret : String) (r : Request) (app : App) → Keeps k v (login pk secret r app).0
  unfolding login
  Keeps-login secret r app =
      let (word, e) = pk.decode_password (limited_body r) in
      Keeps-if k v (not (r.method == "POST")) _ _ (Keeps-write_json 405 _) (
        Keeps-if k v (is_error e) _ _ (Keeps-write_json 400 _)
          (checked secret r word (call_db Service.get_admin_password_hash app)))

  Keeps-change_password : (r : Request) (app : App) → Keeps k v (change_password pk r app).0
  unfolding change_password
  Keeps-change_password r app =
      let (word, e) = pk.decode_new_password (limited_body r) in
      Keeps-if k v (not (r.method == "POST")) _ _ (Keeps-write_json 405 _) (
        Keeps-if k v (is_error e || ltb (len word) 6) _ _ (Keeps-write_json 400 _)
          (Keeps-write_json 200 _))

  formed : (f : Form) (r : Request) (app : App) → Keeps k v (from_form pk f r app).0
  formed too_large r app = Keeps-write_json 400 _
  formed no_file r app = Keeps-write_json 400 _
  formed (image name bytes) r app =
      let e = pk.to_lower (ext name) in
      Keeps-if k v (not (one_of e allowed_types)) _ _ (Keeps-write_json 400 _) (
        Keeps-if k v (app.disk.mkdir_fails (r.clock 3)) _ _ (Keeps-write_json 500 _) (
          Keeps-if k v (app.disk.create_fails (stored_name r e)) _ _ (Keeps-write_json 500 _)
            (Keeps-write_json 200 _)))

  Keeps-upload : (r : Request) (app : App) → Keeps k v (upload pk r app).0
  unfolding upload
  Keeps-upload r app =
      Keeps-if k v (not (r.method == "POST")) _ _ (Keeps-write_json 405 _)
        (formed (pk.parse_form r) r app)

  finished : (result : Err × App) → Keeps k v (finish_put pk result).0
  finished (none, app) = Keeps-write_json 200 _
  finished (some e, app) = Keeps-write_json 500 _

  Keeps-admin_put :
      (fn : Request → App → Err × App) (r : Request) (app : App)
      → Keeps k v (admin_put pk fn r app).0
  unfolding admin_put
  Keeps-admin_put fn r app =
      Keeps-if k v (not (r.method == "PUT")) _ _ (Keeps-write_json 405 _) (finished (fn r app))

  Keeps-put :
      (h : Handler App) (fn : Request → App → Err × App)
      → h ≡ admin_put pk fn
      → (r : Request) (app : App) → Keeps k v (h r app).0
  Keeps-put h fn same r app =
      subst (λ f. Keeps k v (f r app).0) (sym same) (Keeps-admin_put fn r app)

  Keeps-auth :
      (secret : String) (next : Handler App) (r : Request) (app : App)
      → ("X-Content-Type-Options" ≡ k → "nosniff" ≡ v)
      → Keeps k v (next r app).0
      → Keeps k v (auth pk.jwt secret next r app).0
  unfolding auth http_error
  Keeps-auth secret next r app nosniff kept =
      let refused : ("Content-Type" ≡ k → "text/plain; charset=utf-8" ≡ v)
          × (("X-Content-Type-Options" ≡ k → "nosniff" ≡ v) × Unit) =
        ((λ e. absurd (content_type e)), (nosniff, tt)) in
      elim (Option-cases (strip_prefix "Bearer " (get_header "Authorization" r.header))) [
        | inl no_prefix ↦ rw (no_prefix, auth) refused
        | inr (s, prefix) ↦
            elim (Option-cases (pk.jwt.parse s (key_func pk.jwt secret) (r.clock 2))) [
              | inl bad ↦ rw (prefix, bad, auth) refused
              | inr (t, parsed) ↦ elim (Bool-cases (pk.jwt.valid t)) [
                | inl valid ↦ rw (prefix, parsed, valid, auth) kept
                | inr invalid ↦ rw (prefix, parsed, invalid, auth) refused
              ]
            ]
      ]

-- Documented of the file servers: they leave the entry alone, or set it to this value.
pub record StaticKeeps (k v : String) (static : Static) : Type 0 where
  pub file : (name : String) (r : Request) (disk : Disk) → Keeps k v (static.serve_file name r disk)
  pub files : (r : Request) (disk : Disk) → Keeps k v (static.file_server r disk)
  pub uploads : (r : Request) (disk : Disk) → Keeps k v (static.upload_server r disk)
  pub redirects : (path : String) (r : Request) → Keeps k v (static.redirect path r)
  pub missing : (r : Request) → Keeps k v (static.not_found r)

module _ (pk : Packages) (static : Static) (secret : String) (k v : String)
    (content_type : "Content-Type" ≢ k) (cache_control : "Cache-Control" ≢ k)
    (nosniff : "X-Content-Type-Options" ≡ k → "nosniff" ≡ v) (served : StaticKeeps k v static)
    (r : Request) (app : App) where
  Keeps-change : (g : Guarded) → Keeps k v (change pk static secret g r app).0
  unfolding change admin_site admin_hero admin_stats admin_about admin_services admin_news
      admin_partners admin_contact admin_languages admin_side_panel
  Keeps-change password = Keeps-change_password pk k v content_type r app
  Keeps-change files = Keeps-upload pk k v content_type r app
  Keeps-change site = Keeps-put pk k v content_type (admin_site pk) _ refl r app
  Keeps-change hero = Keeps-put pk k v content_type (admin_hero pk) _ refl r app
  Keeps-change stats = Keeps-put pk k v content_type (admin_stats pk) _ refl r app
  Keeps-change about = Keeps-put pk k v content_type (admin_about pk) _ refl r app
  Keeps-change services = Keeps-put pk k v content_type (admin_services pk) _ refl r app
  Keeps-change news = Keeps-put pk k v content_type (admin_news pk) _ refl r app
  Keeps-change partners = Keeps-put pk k v content_type (admin_partners pk) _ refl r app
  Keeps-change contact = Keeps-put pk k v content_type (admin_contact pk) _ refl r app
  Keeps-change all_languages = Keeps-put pk k v content_type (admin_languages pk) _ refl r app
  Keeps-change panel = Keeps-put pk k v content_type (admin_side_panel pk) _ refl r app

  Keeps-handler_of : (e : Endpoint) → Keeps k v (handler_of pk static secret e r app).0
  unfolding handler_of add_cache_headers serve_health
  Keeps-handler_of health = Keeps-write_json pk k v content_type 200 _
  Keeps-handler_of content = Keeps-content pk k v content_type r app
  Keeps-handler_of languages = Keeps-languages pk k v content_type r app
  Keeps-handler_of side_panel = Keeps-side_panel pk k v content_type r app
  Keeps-handler_of sign_in = Keeps-login pk k v content_type secret r app
  Keeps-handler_of (guarded g) =
      Keeps-auth pk k v content_type secret (change pk static secret g) r app nosniff
        (Keeps-change g)
  Keeps-handler_of uploads = ((λ e. absurd (cache_control e)), served.uploads _ _)
  Keeps-handler_of admin_page = served.file _ _ _
  Keeps-handler_of fallback =
      Keeps-if k v (static.in_public r.path app.disk && not (r.path == "/")) _ _
        ((λ e. absurd (cache_control e)), served.files r app.disk)
        (served.file "index.html" r app.disk)

  Keeps-mux_found : (f : Found) → Keeps k v (mux_found pk static secret f r app).0
  Keeps-mux_found (serve e) = Keeps-handler_of e
  Keeps-mux_found (redirect_to p) = served.redirects p r
  Keeps-mux_found not_found = served.missing r

  -- No handler of the routes touches such an entry.
  pub Keeps-mux : Keeps k v (mux pk static secret r app).0
  unfolding mux
  Keeps-mux = Keeps-mux_found (route r)
