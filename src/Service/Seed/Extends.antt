-- ===== src/Service/Seed/Extends.antt =====
-- What MigrateLanguages does to the languages.
use mathlib.Core.List.{append-nil, append_assoc}
use nexlog_server.Base.{
  some_injective, String, ◌≡◌, refl, sym, ◌∙◌, ap, subst, inl, inr, true, false, ◌||◌, List, [],
  ◌∷◌, ◌++◌, none, some, Bool-cases, Option-cases, arith, All, All-append, ltb, if◌then◌else◌,
  eq_iff,
}
use nexlog_server.Json.{Fields, Codec}
use nexlog_server.Sql.{Db, Err, exec, query_row}
use nexlog_server.Sql.Laws.{AllOrNothing, exec-AllOrNothing}
use nexlog_server.Repository.Tables.{Tables, LanguageRow, has_code}
use nexlog_server.Service.Languages.{Texts}
use nexlog_server.Service.Seed.{
  row_of, count_code, add_language, add_stored, plain_texts, migrate_languages,
}

-- `new` has the rows of `old`, as they were and in their order, and after them rows of codes that
-- `old` had not; no other table differs.
pub record Extends (old new : Tables) : Type 0 where
  pub rows : List LanguageRow
  pub appended : new ≡ record old { languages = old.languages ++ rows }
  pub absent : All (λ r. has_code r.code old.languages ≡ false) rows

pub has_code-append :
    (c : String) (l m : List LanguageRow) → has_code c (l ++ m) ≡ (has_code c l || has_code c m)
unfolding has_code
has_code-append c [] m = refl
has_code-append c (r ∷ l) m = ground (arith, has_code-append c l m)

pub Extends-refl : (t : Tables) → Extends t t
Extends-refl t = record { rows = []; appended = rw append-nil refl; absent = tt }

absent_before :
    (l m : List LanguageRow) (rows : List LanguageRow)
    → All (λ r. has_code r.code (l ++ m) ≡ false) rows
    → All (λ r. has_code r.code l ≡ false) rows
absent_before l m [] all = tt
absent_before l m (r ∷ rows) (here, all) =
    (ground (arith, has_code-append r.code l m), absent_before l m rows all)

Extends-trans : (s t u : Tables) → Extends s t → Extends t u → Extends s u
Extends-trans s t u h k =
    let same : t.languages ≡ s.languages ++ h.rows = ap (λ x. x.languages) h.appended in
    record {
      rows = h.rows ++ k.rows;
      appended =
          k.appended
          ∙ (ap {A = Tables} (λ x. record x { languages = x.languages ++ k.rows }) h.appended
              ∙ ap {B = Tables} (λ l. record s { languages = l })
                  (append_assoc s.languages h.rows k.rows));
      absent = All-append _ h.rows k.rows h.absent (
          absent_before s.languages h.rows k.rows
            (subst (λ l. All (λ r. has_code r.code l ≡ false) k.rows) same k.absent));
    }

has_code-Extends :
    (c : String) (s t : Tables)
    → Extends s t
    → has_code c s.languages ≡ true
    → has_code c t.languages ≡ true
has_code-Extends c s t h old =
    ap (λ x. has_code c x.languages) h.appended
    ∙ (has_code-append c s.languages h.rows ∙ rw old refl)

added_stored : (row : LanguageRow) (s t : Tables) → add_stored row s ≡ some t → Extends s t
added_stored row s t h = elim (Bool-cases (has_code row.code s.languages)) [
  | inl there ↦ subst (Extends s) (some_injective s t (rw there at h)) (Extends-refl s)
  | inr new ↦ record {
    rows = row ∷ [];
    appended = sym (some_injective _ t (rw new at h));
    absent = (new, tt);
  }
]

-- The type JSONB takes the text of the map.
abbrev pub Accepts : Codec → Fields → Type 0
Accepts codec fs = (s : String) × (codec.jsonb (codec.marshal (some fs)) ≡ some s)

module _ (codec : Codec) where
  added : (row : LanguageRow) (s t : Tables) → add_language codec row s ≡ some t → Extends s t
  added row s t h = elim (Option-cases (codec.jsonb row.config)) [
    | inl bad ↦ let nothing : none ≡ some t = rw (bad, add_language) at h in cc
    | inr (text, good) ↦
        added_stored (record row { config = text }) s t (rw (good, add_language) at h)
  ]

  Extends-result :
      (row : LanguageRow) (s : Tables) (result : Err × Db Tables)
      → AllOrNothing s (add_language codec row s) result
      → Extends s result.1.tables
  Extends-result row s (none, db) h = added row s db.tables h
  Extends-result row s (some e, db) (inl same) = subst (Extends s) (sym same) (Extends-refl s)
  Extends-result row s (some e, db) (inr h) = added row s db.tables h

  -- Whatever the outcomes of its calls, MigrateLanguages keeps every language as it is, adds only
  -- languages that were missing, and changes no other table.
  pub migrate_languages-Extends :
      (langs : List (String × Texts)) (db : Db Tables)
      → Extends db.tables (migrate_languages codec langs db).tables
  unfolding migrate_languages query_row
  migrate_languages-Extends [] db = Extends-refl db.tables
  migrate_languages-Extends ((code, lang) ∷ langs) db =
      let counted = query_row 0 (λ t. some (count_code code t.languages)) db in
      let add = add_language codec (row_of codec code lang) in
      elim (Bool-cases (ltb 0 counted.0.0)) [
        | inl there ↦ rw (there, migrate_languages) (migrate_languages-Extends langs counted.1)
        | inr missing ↦
            rw (missing, migrate_languages)
              (Extends-trans db.tables (exec add counted.1).1.tables _
                (Extends-result (row_of codec code lang) db.tables (exec add counted.1)
                  (exec-AllOrNothing add counted.1))
                (migrate_languages-Extends langs (exec add counted.1).1))
      ]

  positive_count : (c : String) (l : List LanguageRow) → ltb 0 (count_code c l) ≡ has_code c l
  unfolding count_code has_code
  positive_count c [] = refl
  positive_count c (r ∷ l) = ground (arith, positive_count c l)

  -- The database after the first language.
  abbrev after_one : String → Texts → Db Tables → Db Tables
  after_one code lang db =
      let counted = query_row 0 (λ t. some (count_code code t.languages)) db in
      if ltb 0 counted.0.0
      then counted.1
      else (exec (add_language codec (row_of codec code lang)) counted.1).1

  migrate_languages-cons :
      (code : String) (lang : Texts) (langs : List (String × Texts)) (db : Db Tables)
      → migrate_languages codec ((code, lang) ∷ langs) db
        ≡ migrate_languages codec langs (after_one code lang db)
  unfolding migrate_languages
  migrate_languages-cons code lang langs db =
      elim (Bool-cases (ltb 0 (query_row 0 (λ t. some (count_code code t.languages)) db).0.0)) [
        | inl there ↦ rw (there, migrate_languages) refl
        | inr missing ↦ rw (missing, migrate_languages) refl
      ]

  after_one_fine :
      (code : String) (lang : Texts) (db : Db Tables)
      → db.outcomes ≡ []
      → Accepts codec (plain_texts lang)
      → ((after_one code lang db).outcomes ≡ [])
        × (has_code code (after_one code lang db).tables.languages ≡ true)
  unfolding query_row exec has_code
  after_one_fine code lang db fine (s, good) = ground (
    arith,
    good,
    positive_count code db.tables.languages,
    has_code-append code db.tables.languages (record (row_of codec code lang) { config = s } ∷ []),
    eq_iff code code,
  )

  -- Where the database answers and takes their texts, every language that MigrateLanguages is given
  -- is there afterwards.
  pub migrate_languages_complete :
      (langs : List (String × Texts)) (db : Db Tables)
      → db.outcomes ≡ []
      → All (λ l. Accepts codec (plain_texts l.1)) langs
      → All (λ l. has_code l.0 (migrate_languages codec langs db).tables.languages ≡ true) langs
  migrate_languages_complete [] db fine taken = tt
  migrate_languages_complete ((code, lang) ∷ langs) db fine (good, taken) =
      let next = after_one code lang db in
      let (still_fine, here) = after_one_fine code lang db fine good in
      subst (λ d. All (λ l. has_code l.0 d.tables.languages ≡ true) ((code, lang) ∷ langs))
        (sym (migrate_languages-cons code lang langs db))
        (
          has_code-Extends code next.tables (migrate_languages codec langs next).tables
              (migrate_languages-Extends langs next) here,
          migrate_languages_complete langs next still_fine taken,
        )
