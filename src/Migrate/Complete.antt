-- ===== src/Migrate/Complete.antt =====
-- A run where nothing goes wrong.
use nexlog_server.Base.{
  String, ◌≡◌, refl, List, [], ◌∷◌, Option, none, some, inl, inr, Bool-cases, arith, All,
}
use nexlog_server.Int.{ℤ}
use nexlog_server.Sql.{Db, Err, exec, query, begin, tx_exec, commit}
use nexlog_server.Sql.Laws.{Fine}
use nexlog_server.Migrate.{
  Migration, DirEntry, Schema, has_version, apply_one, run_files, run, collect_up_migrations,
  after_apply, run_collected,
}
use nexlog_server.Migrate.Rerun.{and_then-some}
use nexlog_server.Migrate.Progress.{pending, migrated, all_migrated}

module _ {ℓ} {S : Type ℓ} (read_file : String → String × Err) (script : String → S → Option S) where
  apply_one-Fine :
      (m : Migration) (db : Db (Schema S)) (t : Schema S)
      → db.outcomes ≡ []
      → (read_file m.path).1 ≡ none
      → migrated read_file script m db.tables ≡ some t
      → Fine t (apply_one read_file script m db)
  unfolding apply_one begin tx_exec commit
  apply_one-Fine m db t fine readable ok = ground arith

  after_apply-Fine :
      (m : Migration) (result : Err × Db (Schema S)) (rest : Db (Schema S) → Err × Db (Schema S))
      (u t : Schema S)
      → Fine u result
      → ((db : Db (Schema S)) → db.tables ≡ u → db.outcomes ≡ [] → Fine t (rest db))
      → Fine t (after_apply read_file script m result rest)
  after_apply-Fine m (none, db) rest u t (ok, same, fine) go = go db same fine
  after_apply-Fine m (some e, db) rest u t (ok, same, fine) go = cc

  run_files-Fine :
      (applied : List ℤ) (files : List Migration) (db : Db (Schema S)) (t : Schema S)
      → db.outcomes ≡ []
      → All (λ m. (read_file m.path).1 ≡ none) (pending applied files)
      → all_migrated read_file script (pending applied files) db.tables ≡ some t
      → Fine t (run_files read_file script applied files db)
  unfolding run_files pending all_migrated
  run_files-Fine applied [] db t fine readable ok = ground arith
  run_files-Fine applied (m ∷ files) db t fine readable ok =
      elim (Bool-cases (has_version m.version applied)) [
        | inl old ↦
            rw (old, run_files)
              (run_files-Fine applied files db t fine (rw (old, pending) at readable)
                (rw (old, pending) at ok))
        | inr new ↦
            let (here, others) = rw (new, pending) at readable in
            let (u, step, more) =
              and_then-some (migrated read_file script m db.tables) _ t
                (rw (new, pending, all_migrated) at ok) in
            rw (new, run_files)
              (after_apply-Fine m (apply_one read_file script m db) _ u t
                (apply_one-Fine m db u fine here step)
                λ next same still_fine.
                  run_files-Fine applied files next t still_fine others (rw (← same) at more))
      ]

  run_collected-Fine :
      (c : List Migration × Err) (db : Db (Schema S)) (t : Schema S)
      → db.outcomes ≡ []
      → c.1 ≡ none
      → All (λ m. (read_file m.path).1 ≡ none) (pending db.tables.versions c.0)
      → all_migrated read_file script (pending db.tables.versions c.0) db.tables ≡ some t
      → Fine t (run_collected read_file script c db)
  unfolding query
  run_collected-Fine (files, some e) db t fine none_wrong readable ok = cc
  run_collected-Fine (files, none) db t fine none_wrong readable ok =
      rw (fine, query) (run_files-Fine db.tables.versions files _ t refl readable ok)

  -- Where the database answers, the directory and the files can be read and the scripts of the
  -- migrations that are not recorded are accepted in their order, a run succeeds and leaves what
  -- they make.
  pub run-Fine :
      (entries : List DirEntry) (db : Db (Schema S)) (t : Schema S)
      → db.outcomes ≡ []
      → (collect_up_migrations entries).1 ≡ none
      → All
          (λ m. (read_file m.path).1 ≡ none)
          (pending db.tables.versions (collect_up_migrations entries).0)
      → all_migrated read_file script
          (pending db.tables.versions (collect_up_migrations entries).0)
          db.tables
        ≡ some t
      → Fine t (run read_file script entries db)
  unfolding run exec
  run-Fine entries db t fine collected readable ok =
      rw (fine, exec)
        (run_collected-Fine (collect_up_migrations entries) _ t refl collected readable ok)
