-- ===== src/Handlers/Kinds.antt =====
-- internal/handlers/handlers.go: what is under each key of the cache, whose values are of the type
-- interface{}, and so what the three handlers that read it answer with.
pub mod Kept
pub mod Answers
use nexlog_server.Base.{
  ℕ, String, ◌≡◌, refl, sym, ◌∙◌, ap, subst, Bool, not, List, [], ◌∷◌, Option, none, some, if_both,
  inl, inr, Option-cases, ◌==◌, if◌then◌else◌,
}
use nexlog_server.Http.{Action, Request, Handler}
use nexlog_server.Json.{Value, text, object, Fields, end, field, field_at, set_field, Codec}
use nexlog_server.Json
use nexlog_server.Json.Maps.{field_at-set_field}
use nexlog_server.Cache
use nexlog_server.Cache.Laws.{get-set, get-flush, get-evict_cases, get-new}
use nexlog_server.Sql.{Db, Err, Outcome, fine, refused, lost, rows_outcome, query, head_outcome}
use nexlog_server.Repository.Tables.{Tables, LanguageRow}
use nexlog_server.Repository.Reads.{language_data, collect, languages_of, get_languages, or_empty}
use nexlog_server.Service
use nexlog_server.Handlers.{Packages, App, Payload, Reply, content, call_db}
use nexlog_server.Handlers
use nexlog_server.Handlers.Public.{
  store_reply, read_payload, content_or, serve_content, answer_object, object_or, serve_languages,
  serve_side_panel,
}

abbrev pub IsText : Option Value → Type 0
IsText (some (text s)) = Unit
IsText _ = ⊥

-- An object with a text for its flag and one for its name.
abbrev pub IsLanguage : Value → Type 0
IsLanguage (object fs) = IsText (field_at "flag" fs) × IsText (field_at "name" fs)
IsLanguage _ = ⊥

abbrev pub AllValues : (Value → Type 0) → Fields → Type 0
AllValues P end = Unit
AllValues P (field k v fs) = P v × AllValues P fs

-- The kinds of reply: a payload, a map of languages, and any map, nil included.
abbrev pub IsContent : Reply → Type 0
IsContent (content p) = Unit
IsContent _ = ⊥

abbrev pub IsLanguages : Reply → Type 0
IsLanguages (Handlers.object (some fs)) = AllValues IsLanguage fs
IsLanguages _ = ⊥

abbrev pub IsObject : Reply → Type 0
IsObject (Handlers.object o) = Unit
IsObject _ = ⊥

abbrev pub IfAny : (Reply → Type 0) → Option Reply → Type 0
IfAny P none = Unit
IfAny P (some v) = P v

-- Under each key there is a reply of its kind or none, at any time.
pub record WellKinded (c : Cache.Cache Reply) : Type 0 where
  pub contents : (now : ℕ) → IfAny IsContent (Cache.get now "content" c)
  pub languages : (now : ℕ) → IfAny IsLanguages (Cache.get now "languages" c)
  pub side_panels : (now : ℕ) → IfAny IsObject (Cache.get now "sidepanel" c)

AllValues-set_field :
    (P : Value → Type 0) (k : String) (v : Value) (fs : Fields)
    → P v
    → AllValues P fs
    → AllValues P (set_field k v fs)
unfolding set_field
AllValues-set_field P k v end p all = (p, tt)
AllValues-set_field P k v (field j u fs) p (here, all) =
    if_both (AllValues P) (j == k) _ _ (p, all) (here, AllValues-set_field P k v fs p all)

module _ (codec : Codec) where
  IsLanguage-language_data : (r : LanguageRow) → IsLanguage (object (language_data codec r))
  IsLanguage-language_data r =
      let fs = or_empty (codec.unmarshal r.config) in
      let flagged = set_field "flag" (text r.flag) fs in
      (
        subst IsText
            (sym (
              field_at-set_field "flag" "name" (text r.name) flagged
              ∙ field_at-set_field "flag" "flag" (text r.flag) fs))
            tt,
        subst IsText (sym (field_at-set_field "name" "name" (text r.name) flagged)) tt,
      )

  AllValues-collect :
      (rows : List LanguageRow) (result : Fields)
      → AllValues IsLanguage result
      → AllValues IsLanguage (collect codec rows result)
  unfolding collect
  AllValues-collect [] result all = all
  AllValues-collect (r ∷ rows) result all = AllValues-collect rows _ (
      AllValues-set_field IsLanguage r.code (object (language_data codec r)) result
        (IsLanguage-language_data r) all)

  -- A result without an error is a map of languages.
  abbrev pub LanguagesResult : Option Fields × Err → Type 0
  LanguagesResult (v, some e) = Unit
  LanguagesResult (v, none) = IsLanguages (Handlers.object v)

  LanguagesResult-rows :
      (o : Outcome) (rows : List LanguageRow)
      → LanguagesResult (languages_of codec (rows_outcome o rows))
  LanguagesResult-rows fine rows = AllValues-collect rows end tt
  LanguagesResult-rows (refused e) rows = tt
  LanguagesResult-rows (lost n e) rows = tt

  pub LanguagesResult-get_languages : (db : Db Tables) → LanguagesResult (get_languages codec db).0
  unfolding get_languages query
  LanguagesResult-get_languages db =
      LanguagesResult-rows (head_outcome db.outcomes) db.tables.languages
