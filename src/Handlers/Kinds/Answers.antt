-- ===== src/Handlers/Kinds/Answers.antt =====
-- What the three handlers answer with where the cache is well kinded.
use nexlog_server.Base.{String, ◌≡◌, refl, List, Option, none, some, ◌⊎◌, inl, inr}
use nexlog_server.Http.{Action, Request}
use nexlog_server.Json.{Fields}
use nexlog_server.Cache
use nexlog_server.Sql.{Db, Err, query_row}
use nexlog_server.Repository.Tables.{Tables}
use nexlog_server.Repository.Reads.{get_languages, get_side_panel, panel_of}
use nexlog_server.Service
use nexlog_server.Handlers.{Packages, App, Reply, failure, write_json, call_db}
use nexlog_server.Handlers.Public.{
  content_or, serve_content, answer_object, object_or, serve_languages, serve_side_panel,
}
use nexlog_server.Handlers.Kinds.{
  IsContent, IsLanguages, IsObject, IfAny, WellKinded, LanguagesResult,
  LanguagesResult-get_languages,
}

module _ (pk : Packages) where
  -- 200 with a reply of the kind.
  abbrev pub Answers : (Reply → Type 0) → List Action → Type 0
  Answers P actions = (v : Reply) × P v × (actions ≡ write_json pk 200 v)

  -- 200 with a reply of the kind, or 500 with an error.
  abbrev pub AnswersOrFails : (Reply → Type 0) → List Action → Type 0
  AnswersOrFails P actions =
      Answers P actions ⊎ ((e : String) × (actions ≡ write_json pk 500 (failure e)))

  module _ (r : Request) (get : r.method ≡ "GET") (app : App) (h : WellKinded app.cache) where
    Answers-content_or :
        (o : Option Reply) → IfAny IsContent o → Answers IsContent (content_or pk o r app).0
    Answers-content_or none kind = (_, tt, refl)
    Answers-content_or (some v) kind = (v, kind, refl)

    pub Answers-serve_content : Answers IsContent (serve_content pk r app).0
    unfolding serve_content
    Answers-serve_content =
        simp get
          (Answers-content_or (Cache.get (r.clock 3) "content" app.cache) (h.contents (r.clock 3)))

    AnswersOrFails-answer :
        (result : Option Fields × Err) (db : Db Tables)
        → LanguagesResult pk.codec result
        → AnswersOrFails IsLanguages
            (answer_object pk r "languages" (result, record app { db = db })).0
    AnswersOrFails-answer (v, some e) db kind = inr (e, refl)
    AnswersOrFails-answer (v, none) db kind = inl (_, kind, refl)

    AnswersOrFails-object_or :
        (o : Option Reply) (fresh : List Action × App)
        → IfAny IsLanguages o
        → AnswersOrFails IsLanguages fresh.0
        → AnswersOrFails IsLanguages (object_or pk o fresh app).0
    AnswersOrFails-object_or none fresh kind new = new
    AnswersOrFails-object_or (some v) fresh kind new = inl (v, kind, refl)

    pub AnswersOrFails-serve_languages : AnswersOrFails IsLanguages (serve_languages pk r app).0
    unfolding serve_languages
    AnswersOrFails-serve_languages = rw get (
        AnswersOrFails-object_or (Cache.get (r.clock 3) "languages" app.cache)
          (answer_object pk r "languages" (call_db (Service.get_languages pk.codec) app))
          (h.languages (r.clock 3))
          (AnswersOrFails-answer (get_languages pk.codec app.db).0 (get_languages pk.codec app.db).1
            (LanguagesResult-get_languages pk.codec app.db)))

    Answers-panel :
        (found : String × Err) (db : Db Tables)
        → Answers IsObject
            (answer_object pk r "sidepanel" (panel_of pk.codec found, record app { db = db })).0
    Answers-panel (raw, none) db = (_, tt, refl)
    Answers-panel (raw, some e) db = (_, tt, refl)

    Answers-object_or :
        (o : Option Reply) (fresh : List Action × App)
        → IfAny IsObject o
        → Answers IsObject fresh.0
        → Answers IsObject (object_or pk o fresh app).0
    Answers-object_or none fresh kind new = new
    Answers-object_or (some v) fresh kind new = (v, kind, refl)

    pub Answers-serve_side_panel : Answers IsObject (serve_side_panel pk r app).0
    unfolding serve_side_panel get_side_panel
    Answers-serve_side_panel = rw get (
        Answers-object_or (Cache.get (r.clock 3) "sidepanel" app.cache) _
          (h.side_panels (r.clock 3)) (Answers-panel (query_row "" (λ t. t.sidepanel) app.db).0 _))
