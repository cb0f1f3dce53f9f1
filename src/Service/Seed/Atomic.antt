-- ===== src/Service/Seed/Atomic.antt =====
-- The first boot.
use nexlog_server.Base.{String, ◌≡◌, refl, inl, List, [], ◌∷◌, Option, none, some}
use nexlog_server.Json.{Codec}
use nexlog_server.Sql.{
  Db, Err, Outcome, fine, refused, lost, Tx, tx_exec, query_row, head_outcome, one_outcome,
}
use nexlog_server.Sql.Laws.{
  AllOrNothing, Follows, and_then, Follows-tx_exec, commit-AllOrNothing, in_tx-AllOrNothing,
}
use nexlog_server.Repository.Models.{Site}
use nexlog_server.Repository.Tables.{Tables}
use nexlog_server.Service.Languages.{Texts}
use nexlog_server.Service.Seed.{
  Generate, statements, exec_all, wrap_commit, seed, seed_counted, count_site, seed_if_empty,
}
use nexlog_server.Service.Seed.Extends.{Extends, Extends-refl, migrate_languages-Extends}

-- What statements make together, none where one violates a constraint.
unfoldable pub all_made : List (Tables → Option Tables) → Option Tables → Option Tables
all_made [] t = t
all_made (s ∷ l) t = all_made l (and_then t s)

Follows-exec_all :
    (l : List (Tables → Option Tables)) (old : Tables) (target : Option Tables) (tx : Tx Tables)
    → Follows old target tx
    → Follows old (all_made l target) (exec_all l tx)
unfolding exec_all all_made
Follows-exec_all [] old target tx h = h
Follows-exec_all (s ∷ l) old target tx h =
    Follows-exec_all l old (and_then target s) (tx_exec s tx).1 (Follows-tx_exec s old target tx h)

wrap_commit-AllOrNothing :
    (old : Tables) (target : Option Tables) (result : Err × Db Tables)
    → AllOrNothing old target result
    → AllOrNothing old target (wrap_commit result)
wrap_commit-AllOrNothing old target (none, db) h = h
wrap_commit-AllOrNothing old target (some e, db) h = h

module _ (codec : Codec) (generate : Generate) (langs : List (String × Texts)) where
  seed-AllOrNothing :
      (db : Db Tables)
      → AllOrNothing db.tables
          (all_made (statements codec generate langs) (some db.tables))
          (seed codec generate langs db)
  seed-AllOrNothing db = in_tx-AllOrNothing _ _ db λ tx h. wrap_commit-AllOrNothing db.tables _ _ (
      commit-AllOrNothing db.tables _ _
        (Follows-exec_all (statements codec generate langs) db.tables (some db.tables) tx h))

  counted :
      (o : Outcome) (site : Option Site) (db : Db Tables)
      → site ≡ none
      → AllOrNothing db.tables
          (all_made (statements codec generate langs) (some db.tables))
          (seed_counted codec generate langs (one_outcome 0 o (some (count_site site)), db))
  counted fine none db e = seed-AllOrNothing db
  counted fine (some s) db e = cc
  counted (refused m) site db e = inl refl
  counted (lost n m) site db e = inl refl

  counted_some :
      (o : Outcome) (site : Option Site) (s : Site) (db : Db Tables)
      → site ≡ some s
      → Extends db.tables
          (seed_counted codec generate langs
            (one_outcome 0 o (some (count_site site)), db)).1.tables
  counted_some fine none s db e = cc
  counted_some fine (some t) s db e = migrate_languages-Extends codec langs db
  counted_some (refused m) site s db e = Extends-refl db.tables
  counted_some (lost n m) site s db e = Extends-refl db.tables

  -- SeedIfEmpty on a database with a site keeps every table but that of the languages, and there
  -- only adds languages that were missing, whatever the outcomes of its calls are.
  pub seed_if_empty-Extends :
      (db : Db Tables) (s : Site)
      → db.tables.site ≡ some s
      → Extends db.tables (seed_if_empty codec generate langs db).1.tables
  unfolding seed_if_empty query_row
  seed_if_empty-Extends db s has_site =
      counted_some (head_outcome db.outcomes) db.tables.site s _ has_site

  -- SeedIfEmpty on a database without a site: without an error all of the default data is there;
  -- with an error nothing has changed, or, where only the answer was lost, all of it is there.
  pub seed_if_empty-AllOrNothing :
      (db : Db Tables)
      → db.tables.site ≡ none
      → AllOrNothing db.tables
          (all_made (statements codec generate langs) (some db.tables))
          (seed_if_empty codec generate langs db)
  unfolding seed_if_empty query_row
  seed_if_empty-AllOrNothing db no_site =
      counted (head_outcome db.outcomes) db.tables.site _ no_site
