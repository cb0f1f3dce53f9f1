-- ===== src/Service/Seed/Invariant.antt =====
-- What SeedIfEmpty keeps of the tables.
use nexlog_server.Base.{
  some_injective, ap, ◌∙◌, String, ◌≡◌, sym, List, [], ◌∷◌, ◌++◌, Option, none, some, inl, inr,
  Option-cases, Bool-cases, ltb, if_both, subst,
}
use nexlog_server.Json.{Codec}
use nexlog_server.Sql.{
  Db, Err, Outcome, fine, refused, lost, exec, query_row, head_outcome, one_outcome,
}
use nexlog_server.Sql.Laws.{AllOrNothing, exec-AllOrNothing}
use nexlog_server.Repository.Models.{Site}
use nexlog_server.Repository.Tables.{Tables, LanguageRow, has_code}
use nexlog_server.Repository.WellFormed.{UniqueCodes-snoc, WellFormed}
use nexlog_server.Service.Languages.{Texts}
use nexlog_server.Service.Seed.{
  Generate, statements, add_language, count_code, migrate_languages, seed_counted, count_site,
  seed_if_empty, row_of,
}
use nexlog_server.Service.Seed.Atomic.{all_made, seed_if_empty-AllOrNothing, seed_if_empty-Extends}
use nexlog_server.Service.Seed.Ready.{HasSite-statements}
use nexlog_server.Service.Seed.Sound.{WellFormed-statements}

-- No slides and no stats where there is no site.
abbrev pub Unfilled : Option Site → Tables → Type 0
Unfilled none t = (t.hero_slides ≡ []) × (t.stats ≡ [])
Unfilled (some s) t = Unit

-- Well formed, and ready for SeedIfEmpty.
pub record Seedable (t : Tables) : Type 0 where
  pub well_formed : WellFormed t
  pub unfilled : Unfilled t.site t

module _ (codec : Codec) (generate : Generate) (langs : List (String × Texts)) where
  -- Nothing, or all of the seed.
  WellFormed-result :
      (t : Tables) (result : Err × Db Tables)
      → WellFormed t
      → ((u : Tables) → all_made (statements codec generate langs) (some t) ≡ some u → WellFormed u)
      → AllOrNothing t (all_made (statements codec generate langs) (some t)) result
      → WellFormed result.1.tables
  WellFormed-result t (none, db) w all whole = all db.tables whole
  WellFormed-result t (some e, db) w all (inl same) = subst WellFormed (sym same) w
  WellFormed-result t (some e, db) w all (inr whole) = all db.tables whole

  WellFormed-add_language :
      (row : LanguageRow) (t u : Tables)
      → add_language codec row t ≡ some u
      → WellFormed t
      → WellFormed u
  WellFormed-add_language row t u made w = elim (Option-cases (codec.jsonb row.config)) [
    | inl bad ↦ let failed : none ≡ some u = rw (bad, add_language) at made in cc
    | inr (s, good) ↦ elim (Bool-cases (has_code row.code t.languages)) [
      | inl there ↦
          subst WellFormed
            (some_injective t u
              (let e : some t ≡ some u = rw (good, there, add_language) at made in e))
            w
      | inr new ↦
          subst WellFormed
            (some_injective (record t { languages = t.languages ++ record row { config = s } ∷ [] })
              u (rw (good, new, add_language) at made))
            (record {
              codes = UniqueCodes-snoc t.languages (record row { config = s }) w.codes new;
              slides = w.slides;
              stats = w.stats;
              services = w.services;
              news = w.news;
              partners = w.partners;
            })
    ]
  ]

  WellFormed-exec :
      (stmt : Tables → Option Tables) (t : Tables) (result : Err × Db Tables)
      → ((u : Tables) → stmt t ≡ some u → WellFormed u)
      → AllOrNothing t (stmt t) result
      → WellFormed t
      → WellFormed result.1.tables
  WellFormed-exec stmt t (none, db) keeps whole w = keeps db.tables whole
  WellFormed-exec stmt t (some e, db) keeps (inl same) w = subst WellFormed (sym same) w
  WellFormed-exec stmt t (some e, db) keeps (inr whole) w = keeps db.tables whole

  WellFormed-migrate_languages :
      (langs : List (String × Texts)) (db : Db Tables)
      → WellFormed db.tables
      → WellFormed (migrate_languages codec langs db).tables
  unfolding migrate_languages query_row
  WellFormed-migrate_languages [] db w = w
  WellFormed-migrate_languages ((code, lang) ∷ langs) db w =
      let counted = query_row 0 (λ t. some (count_code code t.languages)) db in
      let add = add_language codec (row_of codec code lang) in
      if_both {A = Db Tables} (λ d. WellFormed d.tables) (ltb 0 counted.0.0) _ _
        (WellFormed-migrate_languages langs counted.1 w)
        (WellFormed-migrate_languages langs (exec add counted.1).1 (
          WellFormed-exec add db.tables (exec add counted.1)
            (λ u made. WellFormed-add_language (row_of codec code lang) db.tables u made w)
            (exec-AllOrNothing add counted.1) w))

  WellFormed-counted_some :
      (o : Outcome) (site : Option Site) (s : Site) (db : Db Tables)
      → site ≡ some s
      → WellFormed db.tables
      → WellFormed
          (seed_counted codec generate langs
            (one_outcome 0 o (some (count_site site)), db)).1.tables
  WellFormed-counted_some fine none s db e w = cc
  WellFormed-counted_some fine (some t) s db e w = WellFormed-migrate_languages langs db w
  WellFormed-counted_some (refused m) site s db e w = w
  WellFormed-counted_some (lost n m) site s db e w = w

  -- SeedIfEmpty keeps the tables well formed, whatever the outcomes of its calls, where they hold
  -- a site or neither slides nor stats.
  pub WellFormed-seed_if_empty :
      (db : Db Tables)
      → Seedable db.tables
      → WellFormed (seed_if_empty codec generate langs db).1.tables
  unfolding seed_if_empty query_row
  WellFormed-seed_if_empty db h = elim (Option-cases db.tables.site) [
    | inr (s, there) ↦
        WellFormed-counted_some (head_outcome db.outcomes) db.tables.site s _ there h.well_formed
    | inl no_site ↦
        let empty : Unfilled none db.tables = rw no_site at h.unfilled in
        WellFormed-result db.tables _ h.well_formed
          (λ u.
            WellFormed-statements codec generate langs db.tables u h.well_formed empty.0 empty.1)
          (seed_if_empty-AllOrNothing codec generate langs db no_site)
  ]

  Seedable-result :
      (t : Tables) (result : Err × Db Tables)
      → t.site ≡ none
      → Seedable t
      → WellFormed result.1.tables
      → AllOrNothing t (all_made (statements codec generate langs) (some t)) result
      → Seedable result.1.tables
  Seedable-result t (none, db) no_site h w whole = record {
    well_formed = w;
    unfilled =
        let site = HasSite-statements codec generate langs t db.tables no_site whole in
        subst (λ s. Unfilled s db.tables) (sym site.1) tt;
  }
  Seedable-result t (some e, db) no_site h w (inl same) = subst Seedable (sym same) h
  Seedable-result t (some e, db) no_site h w (inr whole) = record {
    well_formed = w;
    unfilled =
        let site = HasSite-statements codec generate langs t db.tables no_site whole in
        subst (λ s. Unfilled s db.tables) (sym site.1) tt;
  }

  -- So it leaves them ready for another boot.
  pub Seedable-seed_if_empty :
      (db : Db Tables)
      → Seedable db.tables
      → Seedable (seed_if_empty codec generate langs db).1.tables
  Seedable-seed_if_empty db h =
      let w = WellFormed-seed_if_empty db h in
      elim (Option-cases db.tables.site) [
        | inl no_site ↦
            Seedable-result db.tables _ no_site h w
              (seed_if_empty-AllOrNothing codec generate langs db no_site)
        | inr (s, there) ↦
            let kept = seed_if_empty-Extends codec generate langs db s there in
            record {
              well_formed = w;
              unfilled =
                  subst (λ o. Unfilled o (seed_if_empty codec generate langs db).1.tables)
                    (sym (ap (λ t. t.site) kept.appended ∙ there)) tt;
            }
      ]
