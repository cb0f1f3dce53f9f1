-- ===== src/Handlers/Routes/Files.antt =====
-- What a request does to the files of the upload directory.
use nexlog_server.Base.{
  String, ◌≡◌, refl, sym, ◌∙◌, ap, subst, ◌⊎◌, inl, inr, true, false, List, none, some, if_cases,
  not, eq_iff, arith, ◌==◌, ◌/◌, ◌%◌,
}
use Prim.Native.String
use text.Mathlib.TextLemmas.{append_assoc}
use nexlog_server.GoMap.{GoMap}
use nexlog_server.Text.{has_char, itoa}
use nexlog_server.Http.{Action, Request}
use nexlog_server.Sql.{Db, Err}
use nexlog_server.Middleware.Auth.{auth}
use nexlog_server.Middleware.Auth.Laws.{IsJwt, auth_cases}
use nexlog_server.Middleware.Security.{add_cache_headers}
use nexlog_server.Repository.Tables.{Tables}
use nexlog_server.Service
use nexlog_server.Handlers.{Packages, App, Disk, limited_body, call_db}
use nexlog_server.Handlers.Public.{serve_health}
use nexlog_server.Handlers.Login.{change_password}
use nexlog_server.Handlers.Upload.{upload, allowed_types, one_of, stored_name, add_file}
use nexlog_server.Handlers.Upload.Laws.{upload_cases}
use nexlog_server.Handlers.Admin.{
  finish_put, admin_put, admin_site, admin_hero, admin_stats, admin_about, admin_services,
  admin_news, admin_partners, admin_contact, admin_languages, admin_side_panel, or_end,
}
use nexlog_server.Handlers.Routes.Protection.{
  Unwritten-content, Unwritten-languages, Unwritten-side_panel, Unwritten-login,
}
use nexlog_server.Handlers.Routes.{
  Guarded, password, files, site, hero, stats, about, services, news, partners, contact,
  all_languages, panel, Endpoint, health, content, languages, side_panel, sign_in, guarded, uploads,
  admin_page, fallback, Found, serve, redirect_to, not_found, route, Static, change, handler_of,
  mux_found, mux,
}

-- A name in the directory itself, which has no slash, with one of the allowed extensions.
pub record IsImage (name : String) : Type 0 where
  pub stem : String
  pub extension : String
  pub parts : name ≡ String.◌++◌ stem extension
  pub allowed : one_of extension allowed_types ≡ true
  pub inside : has_char b'/' name ≡ false

-- The file is as it was, or it is there and has such a name.
abbrev pub Kept : String → GoMap String → GoMap String → Type 0
Kept name old new =
    (new name ≡ old name) ⊎ (IsImage name × ((bytes : String) × (new name ≡ some bytes)))

module _ (old : GoMap String) (name : String) where
  abbrev pub KeptIn : App → Type 0
  KeptIn app = Kept name old app.disk.files

  abbrev KeptAfter : List Action × App → Type 0
  KeptAfter x = KeptIn x.1

  Kept-add_file :
      (r : Request) (e bytes : String) (app : App)
      → one_of e allowed_types ≡ true
      → has_char b'/' (stored_name r e) ≡ false
      → KeptIn app
      → KeptIn (add_file (stored_name r e) bytes app)
  Kept-add_file r e bytes app allowed inside h =
      if_cases (λ o. (o ≡ old name) ⊎ (IsImage name × ((b : String) × (o ≡ some b))))
        (stored_name r e == name) (some bytes) (app.disk.files name)
        (λ same. inr (
          subst IsImage ((eq_iff (stored_name r e) name).0 same) (record {
            stem =
                String.◌++◌ (itoa (r.clock 3 / 1_000_000))
                  (String.◌++◌ "-" (itoa (r.random 0 % 1_000_000_000)));
            extension = e;
            parts = sym (append_assoc _ _ e ∙ ap (String.◌++◌ _) (append_assoc "-" _ e));
            allowed = allowed;
            inside = inside;
          }),
          (bytes, refl),
        ))
        λ other. h

  module _ (pk : Packages) (r : Request) (app : App) (h : KeptIn app) where
    KeptAfter-upload : KeptAfter (upload pk r app)
    KeptAfter-upload = elim (upload_cases pk r app) [
      | inl same ↦ subst KeptIn (sym same) h
      | inr (e, bytes, stored) ↦
          subst KeptIn (sym stored.added)
            (Kept-add_file r e bytes app stored.allowed stored.inside h)
    ]

    change_password-disk : (change_password pk r app).1.disk ≡ app.disk
    unfolding change_password
    change_password-disk = ground arith

    finish_put-disk : (result : Err × App) → (finish_put pk result).1.disk ≡ result.1.disk
    finish_put-disk (none, a) = refl
    finish_put-disk (some e, a) = refl

    KeptAfter-admin_put :
        (write : Request → Db Tables → Err × Db Tables)
        → KeptAfter (admin_put pk (λ r. call_db (write r)) r app)
    unfolding admin_put
    KeptAfter-admin_put write =
        if_cases KeptAfter (not (r.method == "PUT")) _ _ (λ other. h)
          λ put.
            subst (λ d. Kept name old d.files) (sym (finish_put-disk (call_db (write r) app))) h

module _ (pk : Packages) (static : Static) (secret : String) (r : Request) (old : GoMap String)
    (name : String) (app : App) (h : KeptIn old name app) where
  KeptAfter-change : (g : Guarded) → KeptAfter old name (change pk static secret g r app)
  unfolding change admin_site admin_hero admin_stats admin_about admin_services admin_news
      admin_partners admin_contact admin_languages admin_side_panel
  KeptAfter-change password =
      subst (λ d. Kept name old d.files) (sym (change_password-disk old name pk r app h)) h
  KeptAfter-change files = KeptAfter-upload old name pk r app h
  KeptAfter-change site =
      KeptAfter-admin_put old name pk r app h
        λ r. Service.update_site (pk.decode_site (limited_body r)).0
  KeptAfter-change hero =
      KeptAfter-admin_put old name pk r app h
        λ r. Service.update_hero_slides (pk.decode_slides (limited_body r)).0
  KeptAfter-change stats =
      KeptAfter-admin_put old name pk r app h
        λ r. Service.update_stats (pk.decode_stats (limited_body r)).0
  KeptAfter-change about =
      KeptAfter-admin_put old name pk r app h
        λ r. Service.update_about (pk.decode_about (limited_body r)).0
  KeptAfter-change services =
      KeptAfter-admin_put old name pk r app h
        λ r. Service.update_services (pk.decode_services (limited_body r)).0
  KeptAfter-change news =
      KeptAfter-admin_put old name pk r app h
        λ r. Service.update_news (pk.decode_news (limited_body r)).0
  KeptAfter-change partners =
      KeptAfter-admin_put old name pk r app h
        λ r. Service.update_partners (pk.decode_partners (limited_body r)).0
  KeptAfter-change contact =
      KeptAfter-admin_put old name pk r app h
        λ r. Service.update_contact (pk.decode_contact (limited_body r)).0
  KeptAfter-change all_languages =
      KeptAfter-admin_put old name pk r app h
        λ r. Service.update_languages pk.codec (or_end pk (pk.decode_object (limited_body r)).0)
  KeptAfter-change panel =
      KeptAfter-admin_put old name pk r app h
        λ r. Service.update_side_panel pk.codec (pk.decode_object (limited_body r)).0

  KeptAfter-guarded :
      (ok : IsJwt pk.jwt) (g : Guarded)
      → KeptAfter old name (auth pk.jwt secret (change pk static secret g) r app)
  KeptAfter-guarded ok g = elim (auth_cases pk.jwt secret ok (change pk static secret g) r app) [
    | inl (bears, served) ↦ subst (KeptAfter old name) (sym served) (KeptAfter-change g)
    | inr (refused, same) ↦ subst (KeptIn old name) (sym same) h
  ]

  fallback-disk : (handler_of pk static secret fallback r app).1.disk ≡ app.disk
  unfolding handler_of add_cache_headers
  fallback-disk = ground arith

  on_disk : (d : Disk) → d ≡ app.disk → Kept name old d.files
  on_disk d same = subst (λ d. Kept name old d.files) (sym same) h

  KeptAfter-handler_of :
      (ok : IsJwt pk.jwt) (e : Endpoint) → KeptAfter old name (handler_of pk static secret e r app)
  unfolding handler_of serve_health add_cache_headers
  KeptAfter-handler_of ok health = h
  KeptAfter-handler_of ok content = on_disk _ (Unwritten-content pk r app).1
  KeptAfter-handler_of ok languages = on_disk _ (Unwritten-languages pk r app).1
  KeptAfter-handler_of ok side_panel = on_disk _ (Unwritten-side_panel pk r app).1
  KeptAfter-handler_of ok sign_in = on_disk _ (Unwritten-login pk r app secret).1
  KeptAfter-handler_of ok (guarded g) = KeptAfter-guarded ok g
  KeptAfter-handler_of ok uploads = h
  KeptAfter-handler_of ok admin_page = h
  KeptAfter-handler_of ok fallback = on_disk _ fallback-disk

  KeptAfter-mux_found :
      (ok : IsJwt pk.jwt) (f : Found) → KeptAfter old name (mux_found pk static secret f r app)
  KeptAfter-mux_found ok (serve e) = KeptAfter-handler_of ok e
  KeptAfter-mux_found ok (redirect_to p) = h
  KeptAfter-mux_found ok not_found = h

  pub KeptAfter-mux : (ok : IsJwt pk.jwt) → KeptAfter old name (mux pk static secret r app)
  unfolding mux
  KeptAfter-mux ok = KeptAfter-mux_found ok (route r)
