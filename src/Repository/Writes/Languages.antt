-- ===== src/Repository/Writes/Languages.antt =====
-- What UpdateLanguages stores.
use mathlib.Core.List.{append-nil, append_assoc}
use nexlog_server.Base.{
  String, ◌≡◌, refl, sym, ◌∙◌, ap, List, [], ◌∷◌, ◌++◌, Option, none, some, inl, inr, Option-cases,
  arith,
}
use nexlog_server.Json.{Value, Fields, end, field, as_object, Codec}
use nexlog_server.Sql.{Db, Tx}
use nexlog_server.Sql.Laws.{
  AllOrNothing, Follows, and_then, Follows-tx_exec, commit-AllOrNothing, in_tx-AllOrNothing,
}
use nexlog_server.Repository.Tables.{Tables, LanguageRow}
use nexlog_server.Repository.Writes.{
  language_row, insert_language, insert_object, insert_languages, update_languages,
}

module _ (codec : Codec) where
  -- One language of the map, in the tables.
  abbrev pub object_made : String → Option Fields → Option Tables → Option Tables
  object_made code none t = t
  object_made code (some lang) t = and_then t (insert_language codec (language_row codec code lang))

  -- The languages of a map together, none where a code is there twice or a text is refused.
  unfoldable pub languages_made : Fields → Option Tables → Option Tables
  languages_made end t = t
  languages_made (field code v langs) t = languages_made langs (object_made code (as_object v) t)

  Follows-insert_object :
      (code : String) (lang : Option Fields) (old : Tables) (target : Option Tables)
      (tx : Tx Tables)
      → Follows old target tx
      → Follows old (object_made code lang target) (insert_object codec code lang tx)
  Follows-insert_object code none old target tx h = h
  Follows-insert_object code (some lang) old target tx h = Follows-tx_exec _ old target tx h

  Follows-insert_languages :
      (langs : Fields) (old : Tables) (target : Option Tables) (tx : Tx Tables)
      → Follows old target tx
      → Follows old (languages_made langs target) (insert_languages codec langs tx)
  unfolding insert_languages languages_made
  Follows-insert_languages end old target tx h = h
  Follows-insert_languages (field code v langs) old target tx h =
      Follows-insert_languages langs old _ _
        (Follows-insert_object code (as_object v) old target tx h)

  -- UpdateLanguages replaces the languages as a whole or leaves the tables unchanged, although the
  -- code ignores the errors of the single statements.
  pub update_languages-AllOrNothing :
      (langs : Fields) (db : Db Tables)
      → AllOrNothing db.tables
          (languages_made langs (some (record db.tables { languages = [] })))
          (update_languages codec langs db)
  unfolding update_languages
  update_languages-AllOrNothing langs db = in_tx-AllOrNothing _ _ db λ tx h.
      commit-AllOrNothing db.tables _ _ (
        Follows-insert_languages langs db.tables (some (record db.tables { languages = [] })) _ (
          Follows-tx_exec (λ t. some (record t { languages = [] })) db.tables (some db.tables) tx
            h))

  -- The rows of a map's languages, in their order.
  pub data Stores : Fields → List LanguageRow → Type 0 where
    nothing : Stores end []
    skips :
        (code : String) (v : Value) (langs : Fields) (rows : List LanguageRow)
        → as_object v ≡ none
        → Stores langs rows
        → Stores (field code v langs) rows
    stores :
        (code : String) (v : Value) (lang langs : Fields) (s : String) (rows : List LanguageRow)
        → as_object v ≡ some lang
        → codec.jsonb (language_row codec code lang).config ≡ some s
        → Stores langs rows
        → Stores (field code v langs) (record (language_row codec code lang) { config = s } ∷ rows)

  languages_made-none : (langs : Fields) → languages_made langs none ≡ none
  unfolding languages_made
  languages_made-none end = refl
  languages_made-none (field code v langs) = elim (Option-cases (as_object v)) [
    | inl skipped ↦ rw skipped (languages_made-none langs)
    | inr (lang, is) ↦ rw is (languages_made-none langs)
  ]

  -- What insert_language did where it did not fail.
  inserted :
      (row : LanguageRow) (t u : Tables)
      → insert_language codec row t ≡ some u
      → (s : String) × (codec.jsonb row.config ≡ some s)
        × (u ≡ record t { languages = t.languages ++ record row { config = s } ∷ [] })
  unfolding insert_language
  inserted row t u h = elim (Option-cases (codec.jsonb row.config)) [
    | inl bad ↦ let failed : none ≡ some u = rw (bad, insert_language) at h in cc
    | inr (s, good) ↦ (s, good, ground arith)
  ]

  -- The rows are those of the map's languages, after those that were there.
  abbrev StoredAfter : Fields → Tables → Tables → Type 0
  StoredAfter langs t u =
      (rows : List LanguageRow) × Stores langs rows
      × (u ≡ record t { languages = t.languages ++ rows })

  StoredAfter-field :
      (code : String) (v : Value) (langs : Fields) (lang : Option Fields) (t u : Tables)
      → as_object v ≡ lang
      → languages_made langs (object_made code lang (some t)) ≡ some u
      → ((t : Tables) → languages_made langs (some t) ≡ some u → StoredAfter langs t u)
      → StoredAfter (field code v langs) t u
  StoredAfter-field code v langs none t u is made rest =
      let (rows, there, same) = rest t made in (rows, skips code v langs rows is there, same)
  StoredAfter-field code v langs (some lang) t u is made rest =
      elim (Option-cases (insert_language codec (language_row codec code lang) t)) [
        | inl failed ↦
            let impossible : none ≡ some u =
              sym (languages_made-none langs) ∙ (rw failed at made) in
            cc
        | inr (next, step) ↦
            let (s, good, is_next) = inserted (language_row codec code lang) t next step in
            let (rows, there, same) = rest next (rw step at made) in
            (
              record (language_row codec code lang) { config = s } ∷ rows,
              stores code v lang langs s rows is good there,
              same
                  ∙ (ap {A = Tables} (λ x. record x { languages = x.languages ++ rows }) is_next
                      ∙ ap {B = Tables} (λ l. record t { languages = l })
                          (append_assoc t.languages
                            (record (language_row codec code lang) { config = s } ∷ []) rows)),
            )
      ]

  pub languages_made_lem :
      (langs : Fields) (t u : Tables)
      → languages_made langs (some t) ≡ some u
      → StoredAfter langs t u
  unfolding languages_made
  languages_made_lem end t u made = ([], nothing, rw append-nil (ground (arith, made)))
  languages_made_lem (field code v langs) t u made =
      StoredAfter-field code v langs (as_object v) t u refl made
        λ next h. languages_made_lem langs next u h
