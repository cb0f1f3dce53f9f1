-- ===== src/Service/Seed.antt =====
-- internal/service/service.go: SeedIfEmpty and MigrateLanguages. The languages are an argument: a
-- listing of DefaultLanguages in the order in which Go's loop meets them. The log is not modelled.
pub mod Extends
pub mod Atomic
pub mod Ready
pub mod Sound
pub mod Invariant
pub mod Complete
pub mod Default
mod Tests
use Prim.Native.String
use nexlog_server.Base.{
  ℕ, zero, suc, String, Bool, true, false, List, [], ◌∷◌, ◌++◌, map, Option, none, some, ◌||◌, ltb,
  ◌==◌, if◌then◌else◌,
}
use nexlog_server.Json.{
  Value, boolean, text, array, object, Items, nil, cons, Fields, end, field, Codec,
}
use nexlog_server.Sql.{Db, Err, Tx, exec, query_row, begin, tx_exec, in_tx, unless_error, commit}
use nexlog_server.Repository.Models.{Site, HeroSlide, Stat, About, Contact}
use nexlog_server.Repository.Tables.{Tables, LanguageRow, add_row, insert_one, as_stored, has_code}
use nexlog_server.Repository.Writes.{insert_hero_slide, insert_stat, insert_language}
use nexlog_server.Service.Languages.{Texts}

-- lang[k], "" where the key is missing.
unfoldable pub text_at : String → Texts → String
text_at k [] = ""
text_at k ((j, v) ∷ l) = if j == k then v else text_at k l

-- The copy without "flag" and "name", as the object that json.Marshal is handed.
unfoldable pub plain_texts : Texts → Fields
plain_texts [] = end
plain_texts ((k, v) ∷ l) =
    if k == "flag" || k == "name" then plain_texts l else field k (text v) (plain_texts l)

abbrev pub row_of : Codec → String → Texts → LanguageRow
row_of codec code lang = record {
  code = code;
  config = codec.marshal (some (plain_texts lang));
  flag = text_at "flag" lang;
  name = text_at "name" lang;
}

-- SELECT COUNT(*) FROM languages WHERE code = $1
unfoldable pub count_code : String → List LanguageRow → ℕ
count_code c [] = 0
count_code c (r ∷ l) = if r.code == c then suc (count_code c l) else count_code c l

abbrev pub add_stored : LanguageRow → Tables → Option Tables
add_stored row t =
    if has_code row.code t.languages
    then some t
    else some (record t { languages = t.languages ++ row ∷ [] })

-- INSERT … ON CONFLICT DO NOTHING
abbrev pub add_language : Codec → LanguageRow → Tables → Option Tables
add_language codec row t = elim (as_stored codec row) [ none ↦ none | some r ↦ add_stored r t ]

-- The errors of both statements are dropped; a count that could not be read is 0.
unfoldable pub migrate_languages : Codec → List (String × Texts) → Db Tables → Db Tables
migrate_languages codec [] db = db
migrate_languages codec ((code, lang) ∷ langs) db =
    let ((count, e), db1) = query_row 0 (λ t. some (count_code code t.languages)) db in
    let (e', db2) = exec (add_language codec (row_of codec code lang)) db1 in
    if ltb 0 count then migrate_languages codec langs db1 else migrate_languages codec langs db2

abbrev pub insert_site : Site → Tables → Option Tables
insert_site s t = elim (insert_one s t.site) [ none ↦ none | some x ↦ some (record t { site = x }) ]

abbrev pub insert_password : String → Tables → Option Tables
insert_password hash t = elim (insert_one hash t.admin_password) [
  | none ↦ none
  | some x ↦ some (record t { admin_password = x })
]

abbrev pub insert_about : About → Tables → Option Tables
insert_about a t = elim (insert_one a t.about) [
  | none ↦ none
  | some x ↦ some (record t { about = x })
]

abbrev pub insert_contact : Contact → Tables → Option Tables
insert_contact c t = elim (insert_one c t.contact) [
  | none ↦ none
  | some x ↦ some (record t { contact = x })
]

abbrev pub insert_side_panel : Codec → String → Tables → Option Tables
insert_side_panel codec config t = elim (codec.jsonb config) [
  | none ↦ none
  | some s ↦ elim (insert_one s t.sidepanel) [
    | none ↦ none
    | some x ↦ some (record t { sidepanel = x })
  ]
]

abbrev stat : String → String → String → Stat
stat icon value label = record { icon = icon; value = value; label = label }

abbrev channel : String → String → String → String → String → Value
channel kind label icon prefix value = object (
    field "type" (text kind) (
      field "label" (text label) (
        field "icon" (text icon) (
          field "linkPrefix" (text prefix)
            (field "value" (text value) (field "enabled" (boolean true) end))))))

abbrev pub panel : Fields
panel = field "enabled" (boolean true) (
    field "position" (text "right") (
      field "label" (text "Contact Us") (
        field "color" (text "#C9922A") (
          field "channels"
            (array (
              cons (channel "phone" "Phone" "📞" "tel:" "+1234567890")
                (cons (channel "whatsapp" "WhatsApp" "💬" "https://wa.me/" "1234567890") nil)))
            end))))

-- bcrypt.GenerateFromPassword at the default cost: the hash, "" with an error.
abbrev pub Generate : Type 0
Generate = String → String × Err

-- The hash of the password of a new database; the error is dropped.
unfoldable pub default_hash : Generate → String
default_hash generate = (generate "password").0

-- The statements of the transaction, in order.
unfoldable pub statements : Codec → Generate → List (String × Texts) → List (Tables → Option Tables)
statements codec generate langs =
    insert_site (record {
      company_name = "NexLog Global";
      tagline = "Connecting the World, Delivering Excellence";
    })
    ∷ insert_password (default_hash generate)
    ∷ insert_hero_slide 0 (record {
      title = "Global Logistics Solutions";
      subtitle = "Fast, Reliable & Trusted Worldwide";
      image = "/uploads/placeholder.jpg";
      button_text = "Explore";
      button_link = "#contact";
    })
    ∷ insert_stat 0 (stat "🚛" "150+" "Countries Served")
    ∷ insert_stat 1 (stat "📦" "50K+" "Shipments/Month")
    ∷ insert_stat 2 (stat "👥" "200+" "Team Members")
    ∷ insert_stat 3 (stat "⭐" "98%" "Client Satisfaction")
    ∷ insert_stat 4 (stat "🏆" "20+" "Years Experience")
    ∷ insert_about (record {
      title = "About Us";
      description =
          "We are a leading global logistics provider with over 20 years of experience connecting businesses worldwide with fast, reliable shipping solutions.";
      image = "/uploads/placeholder.jpg";
    })
    ∷ insert_contact (record {
      address = "123 Logistics St, Global City";
      phone = "+1234567890";
      email = "hello@nexlog.com";
      whatsapp = "+1234567890";
    })
    ∷ (map (λ l. insert_language codec (row_of codec l.0 l.1)) langs
        ++ insert_side_panel codec (codec.marshal (some panel)) ∷ [])

-- tx.ExecContext for each; the errors are dropped.
pub exec_all : List (Tables → Option Tables) → Tx Tables → Tx Tables
exec_all [] tx = tx
exec_all (s ∷ l) tx = exec_all l (tx_exec s tx).1

abbrev pub count_site : Option Site → ℕ
count_site none = 0
count_site (some s) = 1

abbrev pub wrap_commit : Err × Db Tables → Err × Db Tables
wrap_commit (none, db) = (none, db)
wrap_commit (some e, db) = (some (String.◌++◌ "seed: " e), db)

abbrev pub seed : Codec → Generate → List (String × Texts) → Db Tables → Err × Db Tables
seed codec generate langs db =
    in_tx (begin db) λ tx. wrap_commit (commit (exec_all (statements codec generate langs) tx))

abbrev pub seed_counted :
    Codec → Generate → List (String × Texts) → (ℕ × Err) × Db Tables → Err × Db Tables
seed_counted codec generate langs ((count, some e), db) = (some e, db)
seed_counted codec generate langs ((zero, none), db) = seed codec generate langs db
seed_counted codec generate langs ((suc n, none), db) = (none, migrate_languages codec langs db)

unfoldable pub seed_if_empty :
    Codec → Generate → List (String × Texts) → Db Tables → Err × Db Tables
unfolding statements exec_all migrate_languages
seed_if_empty codec generate langs db =
    seed_counted codec generate langs (query_row 0 (λ t. some (count_site t.site)) db)
