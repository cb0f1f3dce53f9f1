-- ===== src/Repository/Writes.antt =====
-- internal/repository/repository.go: the writes.
pub mod Atomic
pub mod Languages
use Prim.Native.String
use nexlog_server.Base.{
  ℕ, suc, String, List, [], ◌∷◌, ◌++◌, Bool, ◌||◌, Option, none, some, ◌==◌, if◌then◌else◌,
}
use nexlog_server.Text.{itoa}
use nexlog_server.Json.{Value, text, as_object, Fields, end, field, field_at, Codec}
use nexlog_server.Sql.{Db, Err, Tx, exec, begin, tx_exec, in_tx, unless_error, commit, rollback}
use nexlog_server.Repository.Models.{
  Site, HeroSlide, Stat, About, Service, NewsItem, Partner, Contact,
}
use nexlog_server.Repository.Tables.{Tables, LanguageRow, add_row, update_one, as_stored, has_code}

unfoldable pub update_site : Site → Db Tables → Err × Db Tables
update_site s = exec (λ t. some (record t { site = update_one s t.site }))

unfoldable pub update_about : About → Db Tables → Err × Db Tables
update_about a = exec (λ t. some (record t { about = update_one a t.about }))

unfoldable pub update_contact : Contact → Db Tables → Err × Db Tables
update_contact c = exec (λ t. some (record t { contact = update_one c t.contact }))

unfoldable pub update_admin_password : String → Db Tables → Err × Db Tables
update_admin_password hash =
    exec (λ t. some (record t { admin_password = update_one hash t.admin_password }))

unfoldable pub update_side_panel : Codec → Option Fields → Db Tables → Err × Db Tables
update_side_panel codec cfg = exec λ t. elim (codec.jsonb (codec.marshal cfg)) [
  | none ↦ none
  | some s ↦ some (record t { sidepanel = update_one s t.sidepanel })
]

abbrev delete_hero_slides : Tables → Option Tables
delete_hero_slides t = some (record t { hero_slides = [] })

abbrev pub insert_hero_slide : ℕ → HeroSlide → Tables → Option Tables
insert_hero_slide i s t = some (record t { hero_slides = add_row i s t.hero_slides })

-- The loop of UpdateHeroSlides, which stops at the first error.
insert_slides : ℕ → List HeroSlide → Tx Tables → Err × Db Tables
insert_slides i [] tx = commit tx
insert_slides i (s ∷ slides) tx =
    let (e, tx') = tx_exec (insert_hero_slide i s) tx in
    let rest = insert_slides (suc i) slides tx' in
    unless_error e
      (λ m.
        rollback (some (String.◌++◌ "insert slide " (String.◌++◌ (itoa i) (String.◌++◌ ": " m))))
          tx')
      rest

unfoldable pub update_hero_slides : List HeroSlide → Db Tables → Err × Db Tables
unfolding insert_slides
update_hero_slides slides db = in_tx (begin db) λ tx.
    let (e, tx') = tx_exec delete_hero_slides tx in
    unless_error e (λ m. rollback (some m) tx') (insert_slides 0 slides tx')

-- The loop of the other writes of a list, which goes on after an error.
unfoldable pub insert_rows {ℓ} :
    {A : Type ℓ} → (ℕ → A → Tables → Option Tables) → ℕ → List A → Tx Tables → Tx Tables
insert_rows insert i [] tx = tx
insert_rows insert i (a ∷ l) tx = insert_rows insert (suc i) l (tx_exec (insert i a) tx).1

abbrev pub insert_stat : ℕ → Stat → Tables → Option Tables
insert_stat i s t = some (record t { stats = add_row i s t.stats })

unfoldable pub update_stats : List Stat → Db Tables → Err × Db Tables
unfolding insert_rows
update_stats stats db = in_tx (begin db) λ tx.
    commit (insert_rows insert_stat 0 stats (tx_exec (λ t. some (record t { stats = [] })) tx).1)

abbrev insert_service : ℕ → Service → Tables → Option Tables
insert_service i s t = some (record t { services = add_row i s t.services })

unfoldable pub update_services : List Service → Db Tables → Err × Db Tables
unfolding insert_rows
update_services list db = in_tx (begin db) λ tx.
    commit
      (insert_rows insert_service 0 list (tx_exec (λ t. some (record t { services = [] })) tx).1)

abbrev insert_news : ℕ → NewsItem → Tables → Option Tables
insert_news i n t = some (record t { news = add_row i n t.news })

unfoldable pub update_news : List NewsItem → Db Tables → Err × Db Tables
unfolding insert_rows
update_news list db = in_tx (begin db) λ tx.
    commit (insert_rows insert_news 0 list (tx_exec (λ t. some (record t { news = [] })) tx).1)

abbrev insert_partner : ℕ → Partner → Tables → Option Tables
insert_partner i p t = some (record t { partners = add_row i p t.partners })

unfoldable pub update_partners : List Partner → Db Tables → Err × Db Tables
unfolding insert_rows
update_partners list db = in_tx (begin db) λ tx.
    commit
      (insert_rows insert_partner 0 list (tx_exec (λ t. some (record t { partners = [] })) tx).1)

-- The code is the primary key.
abbrev pub insert_stored : LanguageRow → Tables → Option Tables
insert_stored row t =
    if has_code row.code t.languages
    then none
    else some (record t { languages = t.languages ++ row ∷ [] })

-- INSERT INTO languages
unfoldable pub insert_language : Codec → LanguageRow → Tables → Option Tables
insert_language codec row t = elim (as_stored codec row) [
  | none ↦ none
  | some r ↦ insert_stored r t
]

-- `v.(string)`, "" for another value or none.
abbrev pub string_of : Option Value → String
string_of (some (text s)) = s
string_of _ = ""

-- The copy without "flag" and "name".
unfoldable pub without_names : Fields → Fields
without_names end = end
without_names (field k v fs) =
    if k == "flag" || k == "name" then without_names fs else field k v (without_names fs)

abbrev pub language_row : Codec → String → Fields → LanguageRow
language_row codec code lang = record {
  code = code;
  config = codec.marshal (some (without_names lang));
  flag = string_of (field_at "flag" lang);
  name = string_of (field_at "name" lang);
}

-- What is no object is skipped.
abbrev pub insert_object : Codec → String → Option Fields → Tx Tables → Tx Tables
insert_object codec code none tx = tx
insert_object codec code (some lang) tx =
    (tx_exec (insert_language codec (language_row codec code lang)) tx).1

-- The loop of UpdateLanguages.
unfoldable pub insert_languages : Codec → Fields → Tx Tables → Tx Tables
insert_languages codec end tx = tx
insert_languages codec (field code v langs) tx =
    insert_languages codec langs (insert_object codec code (as_object v) tx)

unfoldable pub update_languages : Codec → Fields → Db Tables → Err × Db Tables
unfolding insert_languages
update_languages codec langs db = in_tx (begin db) λ tx.
    commit (insert_languages codec langs (tx_exec (λ t. some (record t { languages = [] })) tx).1)
