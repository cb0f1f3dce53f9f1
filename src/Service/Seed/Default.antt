-- ===== src/Service/Seed/Default.antt =====
-- The default data in the tables of an empty database.
use mathlib.Core.List.{append-nil, append_assoc}
use nexlog_server.Base.{
  String, ◌≡◌, refl, ◌∙◌, ap, false, List, [], ◌∷◌, ◌++◌, map, Option, none, some, ◌==◌, arith, All,
}
use nexlog_server.Json.{Codec}
use nexlog_server.Repository.Tables.{Tables, LanguageRow, has_code}
use nexlog_server.Repository.Writes.{insert_language}
use nexlog_server.Service.Languages.{Texts}
use nexlog_server.Service.Seed.{
  Generate, default_hash, statements, row_of, plain_texts, panel, insert_side_panel,
}
use nexlog_server.Service.Seed.Extends.{Accepts, has_code-append}
use nexlog_server.Service.Seed.Atomic.{all_made}

-- The tables after the migrations of an empty database.
abbrev pub no_rows : Tables
no_rows = record {
  site = none;
  admin_password = none;
  hero_slides = [];
  stats = [];
  about = none;
  services = [];
  news = [];
  partners = [];
  contact = none;
  languages = [];
  sidepanel = none;
}

-- No code is listed twice.
abbrev pub DistinctCodes : List (String × Texts) → Type 0
DistinctCodes [] = Unit
DistinctCodes ((c, lang) ∷ l) = All (λ m. (c == m.0) ≡ false) l × DistinctCodes l

abbrev Absent : List (String × Texts) → List LanguageRow → Type 0
Absent l rows = All (λ m. has_code m.0 rows ≡ false) l

Absent-append :
    (l : List (String × Texts)) (rows : List LanguageRow) (r : LanguageRow)
    → All (λ m. (r.code == m.0) ≡ false) l
    → Absent l rows
    → Absent l (rows ++ r ∷ [])
unfolding has_code
Absent-append [] rows r other absent = tt
Absent-append (m ∷ l) rows r (new, other) (here, absent) =
    (ground (arith, has_code-append m.0 rows (r ∷ [])), Absent-append l rows r other absent)

Absent-nil : (l : List (String × Texts)) → Absent l []
unfolding has_code
Absent-nil [] = tt
Absent-nil (m ∷ l) = (refl, Absent-nil l)

all_made-append :
    (l m : List (Tables → Option Tables)) (t : Option Tables)
    → all_made (l ++ m) t ≡ all_made m (all_made l t)
unfolding all_made
all_made-append [] m t = refl
all_made-append (s ∷ l) m t = all_made-append l m _

module _ (codec : Codec) where
  insert_language_ok :
      (row : LanguageRow) (t : Tables) (s : String)
      → codec.jsonb row.config ≡ some s
      → has_code row.code t.languages ≡ false
      → insert_language codec row t
        ≡ some (record t { languages = t.languages ++ record row { config = s } ∷ [] })
  unfolding insert_language
  insert_language_ok row t s good new = ground arith

  languages_made :
      (langs : List (String × Texts)) (t : Tables)
      → All (λ l. Accepts codec (plain_texts l.1)) langs
      → DistinctCodes langs
      → Absent langs t.languages
      → (rows : List LanguageRow) × (all_made
            (map (λ l. insert_language codec (row_of codec l.0 l.1)) langs)
            (some t)
          ≡ some (record t { languages = t.languages ++ rows }))
  unfolding all_made
  languages_made [] t taken distinct absent = ([], rw append-nil refl)
  languages_made ((c, lang) ∷ langs) t ((s, good), taken) (other, distinct) (new, absent) =
      let row : LanguageRow = record (row_of codec c lang) { config = s } in
      let next : Tables = record t { languages = t.languages ++ row ∷ [] } in
      let (rows, made) =
        languages_made langs next taken distinct
          (Absent-append langs t.languages row other absent) in
      (
        row ∷ rows,
        ap (all_made (map (λ l. insert_language codec (row_of codec l.0 l.1)) langs))
              (insert_language_ok (row_of codec c lang) t s good new)
            ∙ (made
                ∙ ap {B = Option Tables} (λ l. some (record t { languages = l }))
                    (append_assoc t.languages (row ∷ []) rows)),
      )

  insert_side_panel_ok :
      (config : String) (t : Tables) (s : String)
      → codec.jsonb config ≡ some s
      → t.sidepanel ≡ none
      → insert_side_panel codec config t ≡ some (record t { sidepanel = some s })
  insert_side_panel_ok config t s good nothing = ground arith

  rest_made :
      (langs : List (String × Texts)) (t : Tables)
      → All (λ l. Accepts codec (plain_texts l.1)) langs
      → Accepts codec panel
      → DistinctCodes langs
      → t.languages ≡ []
      → t.sidepanel ≡ none
      → (u : Tables) × (all_made
            (map (λ l. insert_language codec (row_of codec l.0 l.1)) langs
              ++ insert_side_panel codec (codec.marshal (some panel)) ∷ [])
            (some t)
          ≡ some u)
        × (u.admin_password ≡ t.admin_password)
  unfolding all_made
  rest_made langs t taken (s, good) distinct no_languages no_panel =
      let (rows, made) =
        languages_made langs t taken distinct (rw no_languages (Absent-nil langs)) in
      (
        record t { languages = t.languages ++ rows; sidepanel = some s },
        all_made-append (map (λ l. insert_language codec (row_of codec l.0 l.1)) langs)
              (insert_side_panel codec (codec.marshal (some panel)) ∷ []) (some t)
            ∙ (ap (all_made (insert_side_panel codec (codec.marshal (some panel)) ∷ [])) made
                ∙ insert_side_panel_ok _ _ s good no_panel),
        refl,
      )

  -- The default data can be stored where the type JSONB takes its texts and no language is listed
  -- twice; the hash of the default password is then that of the administrator.
  pub default_made :
      (generate : Generate) (langs : List (String × Texts))
      → All (λ l. Accepts codec (plain_texts l.1)) langs
      → Accepts codec panel
      → DistinctCodes langs
      → (u : Tables) × (all_made (statements codec generate langs) (some no_rows) ≡ some u)
        × (u.admin_password ≡ some (default_hash generate))
  unfolding statements all_made
  default_made generate langs taken panel_taken distinct =
      rest_made langs _ taken panel_taken distinct refl refl
