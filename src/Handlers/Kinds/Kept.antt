-- ===== src/Handlers/Kinds/Kept.antt =====
-- Every handler leaves replies of the right kinds in the cache.
use nexlog_server.Base.{
  ℕ, String, ◌≡◌, sym, subst, not, List, Option, none, some, if_both, inl, inr, ltb, ◌+◌, arith,
  ◌==◌,
}
use nexlog_server.Http.{Action, Request}
use nexlog_server.Json.{Fields}
use nexlog_server.Cache
use nexlog_server.Cache.Laws.{get-set, get-flush, get-evict_cases}
use nexlog_server.Sql.{Db, Err}
use nexlog_server.Repository.Tables.{Tables}
use nexlog_server.Repository.Reads.{get_languages, get_side_panel}
use nexlog_server.Service
use nexlog_server.Handlers.{Packages, App, Payload, Reply, content, call_db}
use nexlog_server.Handlers
use nexlog_server.Handlers.Public.{
  read_payload, content_or, serve_content, answer_object, object_or, serve_languages,
  serve_side_panel,
}
use nexlog_server.Handlers.Admin.{finish_put, admin_put}
use nexlog_server.Handlers.Login.{login, change_password}
use nexlog_server.Handlers.Upload.{upload}
use nexlog_server.Handlers.Kinds.{
  IsContent, IsLanguages, IsObject, IfAny, WellKinded, LanguagesResult,
  LanguagesResult-get_languages,
}

-- An entry under the key itself.
own_key :
    (P : Reply → Type 0) (c : Cache.Cache Reply) (now later : ℕ) (k : String) (v : Reply)
    → P v
    → IfAny P (Cache.get later k c)
    → IfAny P (Cache.get later k (Cache.set now k v c))
own_key P c now later k v here old =
    subst (IfAny P) (sym (get-set c now later k k v))
      (if_both (IfAny P) (k == k) _ _ (if_both (IfAny P) (ltb (now + c.ttl) later) _ _ tt here) old)

module _ (c : Cache.Cache Reply) (h : WellKinded c) (now : ℕ) where
  WellKinded-content : (p : Payload) → WellKinded (Cache.set now "content" (content p) c)
  WellKinded-content p = record {
    contents = λ later. own_key IsContent c now later "content" _ tt (h.contents later);
    languages = λ later.
        subst (IfAny IsLanguages) (sym (get-set c now later "content" "languages" _))
          (h.languages later);
    side_panels = λ later.
        subst (IfAny IsObject) (sym (get-set c now later "content" "sidepanel" _))
          (h.side_panels later);
  }

  WellKinded-languages :
      (v : Option Fields)
      → IsLanguages (Handlers.object v)
      → WellKinded (Cache.set now "languages" (Handlers.object v) c)
  WellKinded-languages v kind = record {
    contents = λ later.
        subst (IfAny IsContent) (sym (get-set c now later "languages" "content" _))
          (h.contents later);
    languages = λ later. own_key IsLanguages c now later "languages" _ kind (h.languages later);
    side_panels = λ later.
        subst (IfAny IsObject) (sym (get-set c now later "languages" "sidepanel" _))
          (h.side_panels later);
  }

  WellKinded-side_panel :
      (v : Option Fields) → WellKinded (Cache.set now "sidepanel" (Handlers.object v) c)
  WellKinded-side_panel v = record {
    contents = λ later.
        subst (IfAny IsContent) (sym (get-set c now later "sidepanel" "content" _))
          (h.contents later);
    languages = λ later.
        subst (IfAny IsLanguages) (sym (get-set c now later "sidepanel" "languages" _))
          (h.languages later);
    side_panels = λ later. own_key IsObject c now later "sidepanel" _ tt (h.side_panels later);
  }

  IfAny-evict :
      (P : Reply → Type 0) (k : String) (later : ℕ)
      → IfAny P (Cache.get later k c)
      → IfAny P (Cache.get later k (Cache.evict now c))
  IfAny-evict P k later old = elim (get-evict_cases now later k c) [
    | inl gone ↦ subst (IfAny P) (sym gone) tt
    | inr same ↦ subst (IfAny P) (sym same) old
  ]

  pub WellKinded-evict : WellKinded (Cache.evict now c)
  WellKinded-evict = record {
    contents = λ later. IfAny-evict IsContent "content" later (h.contents later);
    languages = λ later. IfAny-evict IsLanguages "languages" later (h.languages later);
    side_panels = λ later. IfAny-evict IsObject "sidepanel" later (h.side_panels later);
  }

WellKinded-flush : (c : Cache.Cache Reply) → WellKinded (Cache.flush c)
WellKinded-flush c = record {
  contents = λ later. subst (IfAny IsContent) (sym (get-flush c later "content")) tt;
  languages = λ later. subst (IfAny IsLanguages) (sym (get-flush c later "languages")) tt;
  side_panels = λ later. subst (IfAny IsObject) (sym (get-flush c later "sidepanel")) tt;
}

-- An empty cache.
pub WellKinded-empty :
    (c : Cache.Cache Reply) → ((now : ℕ) (key : String) → Cache.get now key c ≡ none) → WellKinded c
WellKinded-empty c empty = record {
  contents = λ now. subst (IfAny IsContent) (sym (empty now "content")) tt;
  languages = λ now. subst (IfAny IsLanguages) (sym (empty now "languages")) tt;
  side_panels = λ now. subst (IfAny IsObject) (sym (empty now "sidepanel")) tt;
}

abbrev pub KindsIn : App → Type 0
KindsIn app = WellKinded app.cache

abbrev pub KindsAfter : List Action × App → Type 0
KindsAfter x = WellKinded x.1.cache

module _ (pk : Packages) (r : Request) (app : App) (h : WellKinded app.cache) where
  KindsAfter-content_or : (o : Option Reply) → KindsAfter (content_or pk o r app)
  unfolding read_payload
  KindsAfter-content_or none = WellKinded-content app.cache h (r.clock 4) _
  KindsAfter-content_or (some v) = h

  pub KindsAfter-content : KindsAfter (serve_content pk r app)
  unfolding serve_content
  KindsAfter-content =
      if_both KindsAfter (not (r.method == "GET")) _ _ h
        (KindsAfter-content_or (Cache.get (r.clock 3) "content" app.cache))

  KindsAfter-object_or :
      (o : Option Reply) (fresh : List Action × App)
      → KindsAfter fresh
      → KindsAfter (object_or pk o fresh app)
  KindsAfter-object_or none fresh new = new
  KindsAfter-object_or (some v) fresh new = h

  KindsAfter-answer_languages :
      (result : Option Fields × Err) (db : Db Tables)
      → LanguagesResult pk.codec result
      → KindsAfter (answer_object pk r "languages" (result, record app { db = db }))
  KindsAfter-answer_languages (v, some e) db kind = h
  KindsAfter-answer_languages (v, none) db kind =
      WellKinded-languages app.cache h (r.clock 4) v kind

  pub KindsAfter-languages : KindsAfter (serve_languages pk r app)
  unfolding serve_languages
  KindsAfter-languages = if_both KindsAfter (not (r.method == "GET")) _ _ h (
      KindsAfter-object_or (Cache.get (r.clock 3) "languages" app.cache)
        (answer_object pk r "languages" (call_db (Service.get_languages pk.codec) app))
        (KindsAfter-answer_languages (get_languages pk.codec app.db).0
          (get_languages pk.codec app.db).1 (LanguagesResult-get_languages pk.codec app.db)))

  KindsAfter-answer_panel :
      (result : Option Fields × Err) (db : Db Tables)
      → KindsAfter (answer_object pk r "sidepanel" (result, record app { db = db }))
  KindsAfter-answer_panel (v, some e) db = h
  KindsAfter-answer_panel (v, none) db = WellKinded-side_panel app.cache h (r.clock 4) v

  pub KindsAfter-side_panel : KindsAfter (serve_side_panel pk r app)
  unfolding serve_side_panel
  KindsAfter-side_panel = if_both KindsAfter (not (r.method == "GET")) _ _ h (
      KindsAfter-object_or (Cache.get (r.clock 3) "sidepanel" app.cache)
        (answer_object pk r "sidepanel" (call_db (Service.get_side_panel pk.codec) app))
        (KindsAfter-answer_panel (get_side_panel pk.codec app.db).0
          (get_side_panel pk.codec app.db).1))

  login-cache : (secret : String) → (login pk secret r app).1.cache ≡ app.cache
  unfolding login
  login-cache secret = ground arith

  pub KindsAfter-login : (secret : String) → KindsAfter (login pk secret r app)
  KindsAfter-login secret = subst WellKinded (sym (login-cache secret)) h

  change_password-cache : (change_password pk r app).1.cache ≡ app.cache
  unfolding change_password
  change_password-cache = ground arith

  pub KindsAfter-change_password : KindsAfter (change_password pk r app)
  KindsAfter-change_password = subst WellKinded (sym change_password-cache) h

  upload-cache : (upload pk r app).1.cache ≡ app.cache
  unfolding upload
  upload-cache = ground arith

  pub KindsAfter-upload : KindsAfter (upload pk r app)
  KindsAfter-upload = subst WellKinded (sym upload-cache) h

  KindsAfter-finish_put :
      (result : Err × App) → WellKinded result.1.cache → KindsAfter (finish_put pk result)
  KindsAfter-finish_put (some e, app) kept = kept
  KindsAfter-finish_put (none, app) kept = WellKinded-flush app.cache

  pub KindsAfter-admin_put :
      (write : Request → Db Tables → Err × Db Tables)
      → KindsAfter (admin_put pk (λ r. call_db (write r)) r app)
  unfolding admin_put
  KindsAfter-admin_put write =
      if_both KindsAfter (not (r.method == "PUT")) _ _ h
        (KindsAfter-finish_put (call_db (write r) app) h)
