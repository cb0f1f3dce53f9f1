-- ===== src/Repository/WellFormed.antt =====
-- What the tables of the repository are to be like, beyond what their types say.
use nexlog_server.Base.{
  String, ◌≡◌, refl, sym, subst, false, List, [], ◌∷◌, ◌++◌, Option, none, some, inl, inr,
  Bool-cases, Option-cases, arith, eq_iff, ◌==◌,
}
use nexlog_server.Json.{Codec, Fields, end, field, as_object}
use nexlog_server.Repository.Tables.{Tables, Ordered, LanguageRow, has_code}
use nexlog_server.Repository.Writes.{language_row, insert_language}
use nexlog_server.Repository.Writes.Atomic.{numbered}
use nexlog_server.Repository.Writes.Languages.{languages_made, object_made}

-- The rows of a list, in its order: no two have the same sort_order, so that ORDER BY leaves nothing
-- open.
abbrev pub IsNumbered {ℓ} : {A : Type ℓ} → List (Ordered A) → Type ℓ
IsNumbered {A} rows = (l : List A) × (rows ≡ numbered 0 l)

-- No code is there twice.
abbrev pub UniqueCodes : List LanguageRow → Type 0
UniqueCodes [] = Unit
UniqueCodes (r ∷ l) = (has_code r.code l ≡ false) × UniqueCodes l

pub record WellFormed (t : Tables) : Type 0 where
  pub codes : UniqueCodes t.languages
  pub slides : IsNumbered t.hero_slides
  pub stats : IsNumbered t.stats
  pub services : IsNumbered t.services
  pub news : IsNumbered t.news
  pub partners : IsNumbered t.partners

has_code-snoc :
    (c : String) (l : List LanguageRow) (r : LanguageRow)
    → has_code c l ≡ false
    → (r.code == c) ≡ false
    → has_code c (l ++ r ∷ []) ≡ false
unfolding has_code
has_code-snoc c [] r new other = ground arith
has_code-snoc c (s ∷ l) r new other = ground (arith, has_code-snoc c l r)

-- A row of a code that is not there is appended.
pub UniqueCodes-snoc :
    (l : List LanguageRow) (r : LanguageRow)
    → UniqueCodes l
    → has_code r.code l ≡ false
    → UniqueCodes (l ++ r ∷ [])
unfolding has_code
UniqueCodes-snoc [] r distinct new = (refl, tt)
UniqueCodes-snoc (s ∷ l) r (here, distinct) new = (
  has_code-snoc s.code l r here (ground (arith, eq_iff s.code r.code, eq_iff r.code s.code)),
  UniqueCodes-snoc l r distinct (ground arith),
)

-- Where the row is taken its code was not there.
pub UniqueCodes-insert_language :
    (codec : Codec) (row : LanguageRow) (t u : Tables)
    → insert_language codec row t ≡ some u
    → UniqueCodes t.languages
    → UniqueCodes u.languages
unfolding insert_language
UniqueCodes-insert_language codec row t u made distinct =
    elim (Option-cases (codec.jsonb row.config)) [
      | inl bad ↦ let failed : none ≡ some u = rw (bad, insert_language) at made in cc
      | inr (s, good) ↦ elim (Bool-cases (has_code row.code t.languages)) [
        | inl there ↦ let failed : none ≡ some u = rw (good, there, insert_language) at made in cc
        | inr new ↦
            subst UniqueCodes
              (let e : t.languages ++ record row { config = s } ∷ [] ≡ u.languages = ground arith in
                e)
              (UniqueCodes-snoc t.languages (record row { config = s }) distinct new)
      ]
    ]

-- WellFormed looks at six tables only.
pub WellFormed-same :
    (t u : Tables)
    → WellFormed t
    → u.languages ≡ t.languages
    → u.hero_slides ≡ t.hero_slides
    → u.stats ≡ t.stats
    → u.services ≡ t.services
    → u.news ≡ t.news
    → u.partners ≡ t.partners
    → WellFormed u
WellFormed-same t u w codes slides stats services news partners = record {
  codes = subst UniqueCodes (sym codes) w.codes;
  slides = subst IsNumbered (sym slides) w.slides;
  stats = subst IsNumbered (sym stats) w.stats;
  services = subst IsNumbered (sym services) w.services;
  news = subst IsNumbered (sym news) w.news;
  partners = subst IsNumbered (sym partners) w.partners;
}

-- Inserting a language touches no other table.
pub WellFormed-insert_language :
    (codec : Codec) (row : LanguageRow) (t u : Tables)
    → insert_language codec row t ≡ some u
    → WellFormed t
    → WellFormed u
unfolding insert_language
WellFormed-insert_language codec row t u made w =
    let codes = UniqueCodes-insert_language codec row t u made w.codes in
    WellFormed-same (record t { languages = u.languages }) u
      (record {
        codes = codes;
        slides = w.slides;
        stats = w.stats;
        services = w.services;
        news = w.news;
        partners = w.partners;
      })
      refl (ground arith) (ground arith) (ground arith) (ground arith) (ground arith)

abbrev pub WellFormedIfAny : Option Tables → Type 0
WellFormedIfAny none = Unit
WellFormedIfAny (some t) = WellFormed t

module _ (codec : Codec) where
  WellFormed-and_insert :
      (row : LanguageRow) (t : Tables) (o : Option Tables)
      → insert_language codec row t ≡ o
      → WellFormed t
      → WellFormedIfAny o
  WellFormed-and_insert row t none made w = tt
  WellFormed-and_insert row t (some u) made w = WellFormed-insert_language codec row t u made w

  WellFormed-object_made :
      (code : String) (lang : Option Fields) (t : Option Tables)
      → WellFormedIfAny t
      → WellFormedIfAny (object_made codec code lang t)
  WellFormed-object_made code none t w = w
  WellFormed-object_made code (some lang) none w = tt
  WellFormed-object_made code (some lang) (some t) w =
      WellFormed-and_insert (language_row codec code lang) t _ refl w

  pub WellFormed-languages_made :
      (langs : Fields) (t : Option Tables)
      → WellFormedIfAny t
      → WellFormedIfAny (languages_made codec langs t)
  unfolding languages_made
  WellFormed-languages_made end t w = w
  WellFormed-languages_made (field code v langs) t w =
      WellFormed-languages_made langs _ (WellFormed-object_made code (as_object v) t w)
