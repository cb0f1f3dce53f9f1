-- ===== src/Repository/Languages/Listing.antt =====
-- The order in which Go's loop meets the languages makes no difference.
use nexlog_server.Base.{
  String, ◌≡◌, refl, sym, ◌∙◌, ap, subst, List, [], Option, none, some, inl, inr, Bool-cases,
  eq_iff, ◌==◌,
}
use nexlog_server.Json.{Value, object, Fields, end, field_at, set_field, Codec}
use nexlog_server.Json.Maps.{IsMap, field_at-set_field}
use nexlog_server.Sql.{Db, query}
use nexlog_server.Sql.Laws.{succeeded}
use nexlog_server.Repository.Tables.{Tables, LanguageRow}
use nexlog_server.Repository.Reads.{language_data, collect, get_languages}
use nexlog_server.Repository.Writes.{language_row, update_languages}
use nexlog_server.Repository.Writes.Languages.{
  languages_made_lem, Stores, nothing, skips, stores, update_languages-AllOrNothing,
}
use nexlog_server.Repository.Languages.{object_of}

-- What GetLanguages shows of a language, none where the type JSONB refused its text.
abbrev found_of : Codec → String → Fields → Option String → Option Value
found_of codec code lang none = none
found_of codec code lang (some s) =
    some (object (language_data codec (record (language_row codec code lang) { config = s })))

abbrev found_at : Codec → String → Option Fields → Option Value
found_at codec code none = none
found_at codec code (some lang) =
    found_of codec code lang (codec.jsonb (language_row codec code lang).config)

abbrev found_or : Codec → String → Option Fields → Option Value → Option Value
found_or codec code none old = old
found_or codec code (some lang) old = found_at codec code (some lang)

module _ (codec : Codec) where
  field_at-collect :
      (langs : Fields) (rows : List LanguageRow) (result : Fields) (code : String)
      → Stores codec langs rows
      → IsMap langs
      → field_at code (collect codec rows result)
        ≡ found_or codec code (object_of (field_at code langs)) (field_at code result)
  unfolding collect field_at
  field_at-collect _ _ result code nothing distinct = refl
  field_at-collect _ _ result code (skips c v langs rows is there) (new, distinct) =
      let rest = field_at-collect langs rows result code there distinct in
      elim (Bool-cases (c == code)) [
        | inl same ↦
            let gone : field_at code langs ≡ none =
              subst (λ i. field_at i langs ≡ none) ((eq_iff c code).0 same) new in
            rw (same, is) (rw gone at rest)
        | inr other ↦ rw other rest
      ]
  field_at-collect _ _ result code (stores c v lang langs s rows is good there) (new, distinct) =
      let found = language_data codec (record (language_row codec c lang) { config = s }) in
      let rest =
        field_at-collect langs rows (set_field c (object found) result) code there distinct in
      elim (Bool-cases (c == code)) [
        | inl same ↦
            let gone : field_at code langs ≡ none =
              subst (λ i. field_at i langs ≡ none) ((eq_iff c code).0 same) new in
            rw (same, is, good)
              ((rw gone at rest) ∙ (field_at-set_field code c (object found) result ∙ rw same refl))
        | inr other ↦ rw other (
            rest
            ∙ ap (found_or codec code (object_of (field_at code langs)))
                (field_at-set_field code c (object found) result ∙ rw other refl))
      ]

  found_or-missing :
      (code : String) (lang : Option Fields)
      → found_or codec code lang none ≡ found_at codec code lang
  found_or-missing code none = refl
  found_or-missing code (some lang) = refl

  -- What GetLanguages returns after an UpdateLanguages that succeeded, code by code.
  found_languages :
      (langs : Fields) (db : Db Tables)
      → IsMap langs
      → (update_languages codec langs db).0 ≡ none
      → (update_languages codec langs db).1.outcomes ≡ []
      → (out : Fields) × ((get_languages codec (update_languages codec langs db).1).0
          ≡ (some out, none))
        × ((code : String)
            → field_at code out ≡ found_at codec code (object_of (field_at code langs)))
  unfolding get_languages query field_at
  found_languages langs db distinct ok fine =
      let after = (update_languages codec langs db).1 in
      let (rows, there, same) =
        languages_made_lem codec langs (record db.tables { languages = [] }) after.tables
          (succeeded db.tables _ _ ok (update_languages-AllOrNothing codec langs db)) in
      (
        collect codec rows end,
        rw fine (ap (λ t. (some (collect codec t.languages end), none)) same),
        λ code.
            field_at-collect langs rows end code there distinct
            ∙ found_or-missing code (object_of (field_at code langs)),
      )

  -- The order in which UpdateLanguages meets the languages makes no difference: after two listings
  -- of one map that it stored, GetLanguages returns the same map, if the database answers.
  pub update_languages_order :
      (langs langs' : Fields) (db : Db Tables)
      → IsMap langs
      → IsMap langs'
      → ((code : String) → field_at code langs ≡ field_at code langs')
      → (update_languages codec langs db).0 ≡ none
      → (update_languages codec langs db).1.outcomes ≡ []
      → (update_languages codec langs' db).0 ≡ none
      → (update_languages codec langs' db).1.outcomes ≡ []
      → (out : Fields) × (out' : Fields) × ((get_languages codec
            (update_languages codec langs db).1).0
          ≡ (some out, none))
        × ((get_languages codec (update_languages codec langs' db).1).0 ≡ (some out', none))
        × ((code : String) → field_at code out ≡ field_at code out')
  update_languages_order langs langs' db distinct distinct' same ok fine ok' fine' =
      let (out, is, each) = found_languages langs db distinct ok fine in
      let (out', is', each') = found_languages langs' db distinct' ok' fine' in
      (
        out,
        out',
        is,
        is',
        λ code.
            each code
            ∙ (ap (λ v. found_at codec code (object_of v)) (same code) ∙ sym (each' code)),
      )
