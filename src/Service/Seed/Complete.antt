-- ===== src/Service/Seed/Complete.antt =====
-- A seed where nothing goes wrong.
use nexlog_server.Base.{
  String, ◌≡◌, refl, sym, ◌∙◌, false, List, [], ◌∷◌, Option, none, some, inl, inr, ◌⊎◌,
  Option-cases, arith,
}
use nexlog_server.Json.{Codec}
use nexlog_server.Sql.{Db, Err, Tx, query_row, begin, tx_exec, commit}
use nexlog_server.Sql.Laws.{Fine}
use nexlog_server.Repository.Models.{Site}
use nexlog_server.Repository.Tables.{Tables}
use nexlog_server.Service.Languages.{Texts}
use nexlog_server.Service.Seed.{
  Generate, statements, exec_all, seed, wrap_commit, seed_counted, count_site, seed_if_empty,
}
use nexlog_server.Service.Seed.Atomic.{all_made}
use nexlog_server.Service.Seed.Ready.{HasSite, all_made-none}

-- The transaction has not failed, its tables are `t`, and the database will go on to answer.
abbrev Going : Tables → Tx Tables → Type 0
Going t tx = (tx.failed ≡ false) × (tx.working ≡ t) × (tx.db.outcomes ≡ [])

Going-tx_exec :
    (stmt : Tables → Option Tables) (t u : Tables) (tx : Tx Tables)
    → Going t tx
    → stmt t ≡ some u
    → Going u (tx_exec stmt tx).1
unfolding tx_exec
Going-tx_exec stmt t u tx (good, same, fine) made = ground arith

Going-exec_all :
    (l : List (Tables → Option Tables)) (t u : Tables) (tx : Tx Tables)
    → Going t tx
    → all_made l (some t) ≡ some u
    → Going u (exec_all l tx)
unfolding exec_all all_made
Going-exec_all [] t u tx going made = ground arith
Going-exec_all (s ∷ l) t u tx going made = elim (Option-cases (s t)) [
  | inl failed ↦ let nothing : none ≡ some u = sym (all_made-none l) ∙ (rw failed at made) in cc
  | inr (v, step) ↦
      Going-exec_all l v u (tx_exec s tx).1 (Going-tx_exec s t v tx going step) (rw step at made)
]

Fine-commit : (t : Tables) (tx : Tx Tables) → Going t tx → Fine t (commit tx)
unfolding commit
Fine-commit t tx (good, same, fine) = ground arith

wrap_commit-Fine :
    (t : Tables) (result : Err × Db Tables) → Fine t result → Fine t (wrap_commit result)
wrap_commit-Fine t (none, db) ok = ok
wrap_commit-Fine t (some e, db) (ok, same, fine) = cc

module _ (codec : Codec) (generate : Generate) (langs : List (String × Texts)) where
  -- The tables hold a site, or the default data can be stored in them.
  abbrev pub CanSeed : Tables → Type 0
  CanSeed t =
      HasSite t
      ⊎ ((t.site ≡ none)
          × ((u : Tables) × (all_made (statements codec generate langs) (some t) ≡ some u)))

  seed-Fine :
      (db : Db Tables) (u : Tables)
      → db.outcomes ≡ []
      → all_made (statements codec generate langs) (some db.tables) ≡ some u
      → Fine u (seed codec generate langs db)
  unfolding begin
  seed-Fine db u fine made =
      rw (fine, begin)
        (wrap_commit-Fine u _ (
          Fine-commit u _ (
            Going-exec_all (statements codec generate langs) db.tables u _ (refl, refl, refl)
              made)))

  seeded-Fine :
      (site : Option Site) (db : Db Tables) (u : Tables)
      → site ≡ none
      → Fine u (seed codec generate langs db)
      → Fine u (seed_counted codec generate langs ((count_site site, none), db))
  seeded-Fine none db u no_site ok = ok
  seeded-Fine (some s) db u no_site ok = cc

  -- On an empty database that answers and takes the default data, SeedIfEmpty stores it.
  pub seed_if_empty-Fine :
      (db : Db Tables) (u : Tables)
      → db.outcomes ≡ []
      → db.tables.site ≡ none
      → all_made (statements codec generate langs) (some db.tables) ≡ some u
      → Fine u (seed_if_empty codec generate langs db)
  unfolding seed_if_empty query_row
  seed_if_empty-Fine db u fine no_site made =
      rw fine (seeded-Fine db.tables.site _ u no_site (seed-Fine _ u refl made))

  seeded_ok :
      (site : Option Site) (db : Db Tables)
      → (site ≡ none → (seed codec generate langs db).0 ≡ none)
      → (seed_counted codec generate langs ((count_site site, none), db)).0 ≡ none
  seeded_ok none db seeds = seeds refl
  seeded_ok (some s) db seeds = refl

  -- Where the database answers, SeedIfEmpty returns no error.
  pub seed_if_empty_ok :
      (db : Db Tables)
      → db.outcomes ≡ []
      → CanSeed db.tables
      → (seed_if_empty codec generate langs db).0 ≡ none
  unfolding seed_if_empty query_row
  seed_if_empty_ok db fine can = rw fine (
      seeded_ok db.tables.site _ λ no_site. elim can [
        | inl (s, there) ↦ cc
        | inr (gone, (u, made)) ↦ (seed-Fine _ u refl made).0
      ])
