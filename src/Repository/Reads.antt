-- ===== src/Repository/Reads.antt =====
-- internal/repository/repository.go: the reads. A row or a slice comes beside an error, as in Go.
use nexlog_server.Base.{String, List, [], ◌∷◌, Option, none, some, false}
use nexlog_server.Json.{boolean, text, array, object, nil, Fields, end, field, set_field, Codec}
use nexlog_server.Sql.{Db, Err, query, query_row}
use nexlog_server.Repository.Models.{
  Site, HeroSlide, Stat, About, Service, NewsItem, Partner, Contact,
}
use nexlog_server.Repository.Tables.{Tables, LanguageRow, by_sort_order}

unfoldable pub get_site : Db Tables → (Site × Err) × Db Tables
get_site = query_row (record { company_name = ""; tagline = "" }) (λ t. t.site)

unfoldable pub get_about : Db Tables → (About × Err) × Db Tables
get_about = query_row (record { title = ""; description = ""; image = "" }) (λ t. t.about)

unfoldable pub get_contact : Db Tables → (Contact × Err) × Db Tables
get_contact =
    query_row (record { address = ""; phone = ""; email = ""; whatsapp = "" }) (λ t. t.contact)

unfoldable pub get_admin_password_hash : Db Tables → (String × Err) × Db Tables
get_admin_password_hash = query_row "" (λ t. t.admin_password)

unfoldable pub get_hero_slides : Db Tables → (Option (List HeroSlide) × Err) × Db Tables
get_hero_slides = query (λ t. by_sort_order t.hero_slides)

unfoldable pub get_stats : Db Tables → (Option (List Stat) × Err) × Db Tables
get_stats = query (λ t. by_sort_order t.stats)

unfoldable pub get_services : Db Tables → (Option (List Service) × Err) × Db Tables
get_services = query (λ t. by_sort_order t.services)

unfoldable pub get_news : Db Tables → (Option (List NewsItem) × Err) × Db Tables
get_news = query (λ t. by_sort_order t.news)

unfoldable pub get_partners : Db Tables → (Option (List Partner) × Err) × Db Tables
get_partners = query (λ t. by_sort_order t.partners)

abbrev pub or_empty : Option Fields → Fields
or_empty none = end
or_empty (some fs) = fs

abbrev pub language_data : Codec → LanguageRow → Fields
language_data codec r =
    set_field "name" (text r.name)
      (set_field "flag" (text r.flag) (or_empty (codec.unmarshal r.config)))

-- The loop of GetLanguages.
unfoldable pub collect : Codec → List LanguageRow → Fields → Fields
collect codec [] result = result
collect codec (r ∷ rows) result =
    collect codec rows (set_field r.code (object (language_data codec r)) result)

abbrev pub languages_of : Codec → Option (List LanguageRow) × Err → Option Fields × Err
languages_of codec (none, e) = (none, e)
languages_of codec (some rows, e) = (some (collect codec rows end), e)

unfoldable pub get_languages : Codec → Db Tables → (Option Fields × Err) × Db Tables
unfolding collect
get_languages codec db =
    let (found, db') = query (λ t. t.languages) db in (languages_of codec found, db')

abbrev default_panel : Fields
default_panel = field "enabled" (boolean false) (field "channels" (array nil) end)

abbrev pub panel_of : Codec → String × Err → Option Fields × Err
panel_of codec (raw, some e) = (some default_panel, none)
panel_of codec (raw, none) = (codec.unmarshal raw, none)

-- Never an error: where the row cannot be read the panel is switched off.
unfoldable pub get_side_panel : Codec → Db Tables → (Option Fields × Err) × Db Tables
get_side_panel codec db =
    let (found, db') = query_row "" (λ t. t.sidepanel) db in (panel_of codec found, db')
