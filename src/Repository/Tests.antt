-- ===== src/Repository/Tests.antt =====
-- Writes to concrete tables.
use nexlog_server.Base.{
  String, ◌==◌, subst, inl, inr, Bool-cases, eq_iff, ◌≡◌, refl, List, [], ◌∷◌, none, some,
}
use nexlog_server.Samples.{some_db}
use nexlog_server.Sql
use nexlog_server.Sql.{Db, begin, tx_exec, commit}
use nexlog_server.Sql.Laws.{AllOrNothing}
use nexlog_server.Repository.Models.{Partner, HeroSlide}
use nexlog_server.Repository.Tables.{Tables}
use nexlog_server.Repository.Writes.{
  update_stats, update_services, update_news, update_partners, insert_rows, update_languages,
  insert_languages, insert_language, without_names,
}
use nexlog_server.Repository.Writes.Atomic.{numbered, update_lists-AllOrNothing}
use nexlog_server.Repository.Order.{of_partners, get_of, update_of, get_of-update_of}
use nexlog_server.Repository.Languages.Listing.{update_languages_order}
use nexlog_server.Repository.Languages.{object_of, LanguageAt, get_languages-update_languages}
use nexlog_server.Repository.Reads.{get_languages}
use nexlog_server.Json.{text, object, end, field, Fields, field_at}
use nexlog_server.Json.Sample.{years_codec, years_codec-IsCodec, some_languages}
use nexlog_server.Text.{strip_prefix}
use nexlog_server.Repository.Tables.{has_code}

-- The second statement is refused.
abbrev broken_db : Db Tables
broken_db = record some_db { outcomes = Sql.fine ∷ Sql.refused "timeout" ∷ [] }

abbrev two_partners : List Partner
two_partners =
    record { name = "A"; logo = "/uploads/a.png" }
    ∷ record { name = "B"; logo = "/uploads/b.png" }
    ∷ []

update_lists-AllOrNothing_example :
    AllOrNothing broken_db.tables
      (some (record broken_db.tables { stats = numbered 0 [] }))
      (update_stats [] broken_db)
    × AllOrNothing broken_db.tables
        (some (record broken_db.tables { services = numbered 0 [] }))
        (update_services [] broken_db)
    × AllOrNothing broken_db.tables
        (some (record broken_db.tables { news = numbered 0 [] }))
        (update_news [] broken_db)
    × AllOrNothing broken_db.tables
        (some (record broken_db.tables { partners = numbered 0 two_partners }))
        (update_partners two_partners broken_db)
update_lists-AllOrNothing_example = update_lists-AllOrNothing broken_db [] [] [] two_partners

abbrev one_slide : List HeroSlide
one_slide =
    record { title = "T"; subtitle = ""; image = ""; button_text = ""; button_link = "" } ∷ []

get_of-update_of_example :
    (get_of of_partners (update_of of_partners two_partners some_db).1).0
    ≡ (some two_partners, none)
unfolding update_partners begin tx_exec commit insert_rows
get_of-update_of_example = get_of-update_of of_partners two_partners some_db refl refl

get_languages-update_languages_example :
    (out : Fields) × ((get_languages years_codec
        (update_languages years_codec some_languages some_db).1).0
      ≡ (some out, none))
    × ((code : String) → LanguageAt (object_of (field_at code some_languages)) (field_at code out))
unfolding field_at update_languages insert_languages begin tx_exec commit insert_language has_code
    without_names strip_prefix
get_languages-update_languages_example =
    get_languages-update_languages years_codec years_codec-IsCodec some_languages some_db
      (refl, (refl, tt)) ((refl, (refl, tt)), (tt, tt)) refl refl

-- Two languages, listed in either order.
abbrev english : Fields
english = field "name" (text "English") end

abbrev two_languages : Fields
two_languages = field "en" (object english) (field "ja" (object end) end)

abbrev turned_round : Fields
turned_round = field "ja" (object end) (field "en" (object english) end)

same_languages : (code : String) → field_at code two_languages ≡ field_at code turned_round
unfolding field_at
same_languages code = elim (Bool-cases ("en" == code)) [
  | inl same ↦
      subst (λ c. field_at c two_languages ≡ field_at c turned_round) ((eq_iff "en" code).0 same)
        refl
  | inr other ↦ rw other refl
]

update_languages_order_example :
    (out : Fields) × (out' : Fields) × ((get_languages years_codec
        (update_languages years_codec two_languages some_db).1).0
      ≡ (some out, none))
    × ((get_languages years_codec (update_languages years_codec turned_round some_db).1).0
        ≡ (some out', none))
    × ((code : String) → field_at code out ≡ field_at code out')
unfolding field_at update_languages insert_languages begin tx_exec commit insert_language has_code
    without_names strip_prefix
update_languages_order_example =
    update_languages_order years_codec two_languages turned_round some_db (refl, (refl, tt))
      (refl, (refl, tt)) same_languages refl refl refl refl
