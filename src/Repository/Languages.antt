-- ===== src/Repository/Languages.antt =====
-- What GetLanguages returns of the languages that UpdateLanguages stored.
pub mod Listing
use nexlog_server.Base.{
  String, ◌≡◌, refl, sym, ◌∙◌, ap, subst, true, false, ◌||◌, List, [], Option, none, some, inl, inr,
  Bool-cases, arith, eq_iff, if◌then◌else◌, ◌==◌,
}
use nexlog_server.Json.{
  Value, text, object, Fields, end, field, field_at, set_field, as_object, Codec,
}
use nexlog_server.Json.Maps.{IsMap, HasMaps, SameText, IsCodec, field_at-set_field}
use nexlog_server.Sql.{Db, query}
use nexlog_server.Sql.Laws.{succeeded}
use nexlog_server.Repository.Tables.{Tables, LanguageRow}
use nexlog_server.Repository.Reads.{language_data, collect, get_languages}
use nexlog_server.Repository.Writes.{string_of, without_names, language_row, update_languages}
use nexlog_server.Repository.Writes.Languages.{
  languages_made_lem, Stores, nothing, skips, stores, update_languages-AllOrNothing,
}

-- The object of a language, none where there is no object.
abbrev pub object_of : Option Value → Option Fields
object_of none = none
object_of (some v) = as_object v

-- What a visitor is to find under a key of a language: a text for its flag and its name.
abbrev shown_at : String → Fields → Option Value
shown_at k lang =
    if k == "flag" || k == "name"
    then some (text (string_of (field_at k lang)))
    else field_at k lang

-- Nothing for a value that is no object, and else an object with the same texts.
abbrev pub LanguageAt : Option Fields → Option Value → Type 0
LanguageAt none x = x ≡ none
LanguageAt (some lang) x =
    (found : Fields) × (x ≡ some (object found))
    × ((k : String) → SameText (shown_at k lang) (field_at k found))

field_at-without_names :
    (k : String) (fs : Fields)
    → field_at k (without_names fs) ≡ (if k == "flag" || k == "name" then none else field_at k fs)
unfolding field_at without_names
field_at-without_names k end = ground arith
field_at-without_names k (field j v fs) = elim (Bool-cases (j == "flag" || j == "name")) [
  | inl dropped ↦ elim (Bool-cases (j == k)) [
    | inl same ↦
        let is_name : (k == "flag" || k == "name") ≡ true =
          subst (λ i. (i == "flag" || i == "name") ≡ true) ((eq_iff j k).0 same) dropped in
        rw (dropped, is_name, without_names) (field_at-without_names k fs ∙ rw is_name refl)
    | inr other ↦ rw (dropped, other, without_names) (field_at-without_names k fs)
  ]
  | inr kept ↦ elim (Bool-cases (j == k)) [
    | inl same ↦
        let no_name : (k == "flag" || k == "name") ≡ false =
          subst (λ i. (i == "flag" || i == "name") ≡ false) ((eq_iff j k).0 same) kept in
        rw (kept, no_name, same, without_names, field_at) refl
    | inr other ↦ rw (kept, other, without_names, field_at) (field_at-without_names k fs)
  ]
]

IsMap-without_names : (fs : Fields) → IsMap fs → IsMap (without_names fs)
unfolding without_names
IsMap-without_names end h = tt
IsMap-without_names (field j v fs) (new, h) = elim (Bool-cases (j == "flag" || j == "name")) [
  | inl dropped ↦ rw (dropped, without_names) (IsMap-without_names fs h)
  | inr kept ↦
      rw (kept, without_names)
        (field_at-without_names j fs ∙ rw (kept, new) refl, IsMap-without_names fs h)
]

-- As LanguageAt, where what is there otherwise is `old`.
abbrev LanguageOr : Option Fields → Option Value → Option Value → Type 0
LanguageOr none old x = x ≡ old
LanguageOr (some lang) old x = LanguageAt (some lang) x

language_data_at :
    (codec : Codec) (k : String) (row : LanguageRow) (gs : Fields)
    → codec.unmarshal row.config ≡ some gs
    → field_at k (language_data codec row) ≡ (
        if "name" == k
        then some (text row.name)
        else if "flag" == k
        then some (text row.flag)
        else field_at k gs)
language_data_at codec k row gs is = rw is (
    field_at-set_field k "name" (text row.name) (set_field "flag" (text row.flag) gs)
    ∙ ap (λ x. if "name" == k then some (text row.name) else x)
        (field_at-set_field k "flag" (text row.flag) gs))

module _ (codec : Codec) (law : IsCodec codec) where
  language_shown :
      (code : String) (lang : Fields) (s : String)
      → IsMap lang
      → codec.jsonb (language_row codec code lang).config ≡ some s
      → (k : String)
      → SameText
          (shown_at k lang)
          (field_at k (language_data codec (record (language_row codec code lang) { config = s })))
  language_shown code lang s is_map good k =
      let (gs, is, same) = law.kept (without_names lang) s (IsMap-without_names lang is_map) good in
      let row : LanguageRow = record (language_row codec code lang) { config = s } in
      elim (Bool-cases (k == "flag")) [
        | inl flag ↦
            subst (λ k. SameText (shown_at k lang) (field_at k (language_data codec row)))
              (sym ((eq_iff k "flag").0 flag)) (language_data_at codec "flag" row gs is)
        | inr no_flag ↦ elim (Bool-cases (k == "name")) [
          | inl name ↦
              subst (λ k. SameText (shown_at k lang) (field_at k (language_data codec row)))
                (sym ((eq_iff k "name").0 name)) (language_data_at codec "name" row gs is)
          | inr no_name ↦
              let unnamed : field_at k (without_names lang) ≡ shown_at k lang =
                field_at-without_names k lang ∙ rw (no_flag, no_name) refl in
              let found : field_at k gs ≡ field_at k (language_data codec row) = sym (
                language_data_at codec k row gs is
                ∙ ground
                    (arith, eq_iff "name" k, eq_iff "flag" k, eq_iff k "name", eq_iff k "flag")) in
              subst (λ x. SameText x (field_at k (language_data codec row))) unnamed
                (subst (SameText (field_at k (without_names lang))) found (same k))
        ]
      ]

  collect_lem :
      (langs : Fields) (rows : List LanguageRow) (result : Fields) (code : String)
      → Stores codec langs rows
      → IsMap langs
      → HasMaps langs
      → LanguageOr
          (object_of (field_at code langs))
          (field_at code result)
          (field_at code (collect codec rows result))
  unfolding collect field_at
  collect_lem _ _ result code nothing distinct maps = refl
  collect_lem _ _ result code (skips c v langs rows is there) (new, distinct) (map, maps) =
      let rest = collect_lem langs rows result code there distinct maps in
      elim (Bool-cases (c == code)) [
        | inl same ↦
            let gone : field_at code langs ≡ none =
              subst (λ i. field_at i langs ≡ none) ((eq_iff c code).0 same) new in
            rw (same, is) (rw gone at rest)
        | inr other ↦ rw other rest
      ]
  collect_lem _ _ result code (stores c v lang langs s rows is good there) (new, distinct)
        (map, maps) =
      let found = language_data codec (record (language_row codec c lang) { config = s }) in
      let rest =
        collect_lem langs rows (set_field c (object found) result) code there distinct maps in
      elim (Bool-cases (c == code)) [
        | inl same ↦
            let gone : field_at code langs ≡ none =
              subst (λ i. field_at i langs ≡ none) ((eq_iff c code).0 same) new in
            rw (same, is)
              (
                found,
                (rw gone at rest)
                    ∙ (field_at-set_field code c (object found) result ∙ rw same refl),
                language_shown c lang s (rw is at map) good,
              )
        | inr other ↦ rw other (
            subst
              (λ old.
                LanguageOr (object_of (field_at code langs)) old
                  (field_at code (collect codec rows (set_field c (object found) result))))
              (field_at-set_field code c (object found) result ∙ rw other refl) rest)
      ]

  LanguageOr-missing :
      (lang : Option Fields) (x : Option Value) → LanguageOr lang none x → LanguageAt lang x
  LanguageOr-missing none x h = h
  LanguageOr-missing (some lang) x h = h

  -- Where UpdateLanguages succeeded and the database answers, GetLanguages returns an object for
  -- each value that was one, with its flag and name, "" for what is no text, and the same other
  -- texts, and it returns nothing else. Other values than texts are left open.
  pub get_languages-update_languages :
      (langs : Fields) (db : Db Tables)
      → IsMap langs
      → HasMaps langs
      → (update_languages codec langs db).0 ≡ none
      → (update_languages codec langs db).1.outcomes ≡ []
      → (out : Fields) × ((get_languages codec (update_languages codec langs db).1).0
          ≡ (some out, none))
        × ((code : String) → LanguageAt (object_of (field_at code langs)) (field_at code out))
  unfolding get_languages query field_at
  get_languages-update_languages langs db distinct maps ok fine =
      let after = (update_languages codec langs db).1 in
      let (rows, there, same) =
        languages_made_lem codec langs (record db.tables { languages = [] }) after.tables
          (succeeded db.tables _ _ ok (update_languages-AllOrNothing codec langs db)) in
      (
        collect codec rows end,
        rw fine (ap (λ t. (some (collect codec t.languages end), none)) same),
        λ code.
            LanguageOr-missing (object_of (field_at code langs)) _
              (collect_lem langs rows end code there distinct maps),
      )
