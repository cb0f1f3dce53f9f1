-- ===== src/Handlers/Public/Languages.antt =====
-- /api/languages shows the languages at once after an administrator's change.
use nexlog_server.Base.{String, ◌≡◌, sym, ◌∙◌, ap, subst, [], Option, none, some, eq_iff}
use nexlog_server.Json.{Fields, field_at}
use nexlog_server.Json.Maps.{IsMap, HasMaps, IsCodec}
use nexlog_server.Cache
use nexlog_server.Cache.Laws.{get-flush}
use nexlog_server.Http.{Request}
use nexlog_server.Sql.{Err}
use nexlog_server.Repository.Reads.{get_languages}
use nexlog_server.Repository.Writes.{update_languages}
use nexlog_server.Repository.Languages.{object_of, LanguageAt, get_languages-update_languages}
use nexlog_server.Service
use nexlog_server.Handlers.{Packages, App, object, write_json, call_db, limited_body}
use nexlog_server.Handlers.Admin.{admin_put, admin_languages, or_end}
use nexlog_server.Handlers.Admin.Laws.{put_done}
use nexlog_server.Handlers.Public.{serve_languages, answer_object}

module _ (pk : Packages) (r : Request) (get : r.method ≡ "GET") where
  answered :
      (result : (Option Fields × Err) × App) (out : Fields)
      → result.0 ≡ (some out, none)
      → (answer_object pk r "languages" result).0 ≡ write_json pk 200 (object (some out))
  answered ((v, none), app) out is = ap (λ x. write_json pk 200 (object x.0)) is
  answered ((v, some e), app) out is = let failed : some e ≡ none = ap (λ x. x.1) is in cc

  -- With nothing in the cache, the reply is what GetLanguages returns.
  languages_fresh :
      (app : App) (out : Fields)
      → Cache.get (r.clock 3) "languages" app.cache ≡ none
      → (get_languages pk.codec app.db).0 ≡ (some out, none)
      → (serve_languages pk r app).0 ≡ write_json pk 200 (object (some out))
  unfolding serve_languages
  languages_fresh app out missing is =
      rw ((eq_iff _ _).1 get, missing, serve_languages) (answered _ out is)

  -- After a PUT of languages that was stored, and whatever the cache held, a GET of /api/languages
  -- is answered with an object for each value that was one, with its flag and name, "" for what is no
  -- text, and the same other texts, and with nothing else, if the database answers. Other values than
  -- texts are left open.
  pub languages-admin_languages :
      (put : Request) (app : App) (langs : Fields)
      → IsCodec pk.codec
      → put.method ≡ "PUT"
      → (pk.decode_object (limited_body put)).0 ≡ some langs
      → IsMap langs
      → HasMaps langs
      → (update_languages pk.codec langs app.db).0 ≡ none
      → (update_languages pk.codec langs app.db).1.outcomes ≡ []
      → (out : Fields) × ((serve_languages pk r (admin_languages pk put app).1).0
          ≡ write_json pk 200 (object (some out)))
        × ((code : String) → LanguageAt (object_of (field_at code langs)) (field_at code out))
  unfolding admin_languages admin_put
  languages-admin_languages put app langs law is_put sent distinct maps ok fine =
      let (out, is, each) =
        get_languages-update_languages pk.codec law langs app.db distinct maps ok fine in
      let change : Option Fields → App → Err × App =
        λ decoded. call_db (Service.update_languages pk.codec (or_end pk decoded)) in
      let fn = λ (r : Request). change (pk.decode_object (limited_body r)).0 in
      (
        out,
        ap (λ x. (serve_languages pk r x.1).0)
              (put_done pk fn put app is_put (subst (λ d. (change d app).0 ≡ none) (sym sent) ok))
            ∙ languages_fresh _ out (get-flush _ (r.clock 3) "languages") (
                subst (λ d. (get_languages pk.codec (change d app).1.db).0 ≡ (some out, none))
                  (sym sent) is),
        each,
      )
