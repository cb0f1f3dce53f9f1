-- ===== src/Migrate/Progress.antt =====
-- What a run of the migrations leaves applied.
use nexlog_server.Base.{
  String, ◌≡◌, refl, sym, ap, List, [], ◌∷◌, ◌++◌, Option, none, some, inl, inr, Bool-cases,
  Option-cases, if◌then◌else◌,
}
use nexlog_server.Int.{ℤ}
use nexlog_server.Sql.{
  Db, Err, Outcome, fine, refused, lost, exec, query, unless_error, rollback, tx_exec, commit,
  head_outcome, Tx, rows_outcome, exec_outcome,
}
use nexlog_server.Sql.Laws.{
  AllOrNothing, Follows, and_then, Follows-tx_exec, commit-AllOrNothing, in_tx-AllOrNothing,
  unless_error-AllOrNothing,
}
use nexlog_server.Migrate.{
  Migration, DirEntry, Schema, has_version, exec_script, insert_version, apply_one, run_files, run,
  run_ensured, run_collected, run_applied, collect_up_migrations, after_apply,
}

-- The files that are not in the table yet, in their order.
unfoldable pub pending : List ℤ → List Migration → List Migration
pending applied [] = []
pending applied (m ∷ files) =
    if has_version m.version applied then pending applied files else m ∷ pending applied files

module _ {ℓ} {S : Type ℓ} (read_file : String → String × Err) (script : String → S → Option S) where
  -- One migration: its script and its row, or nothing where either is refused.
  abbrev pub migrated : Migration → Schema S → Option (Schema S)
  migrated m t =
      and_then (exec_script read_file script (read_file m.path).0 t)
        (insert_version read_file script m.version)

  abbrev in_transaction : Migration → Tx (Schema S) → Err × Db (Schema S)
  in_transaction m tx =
      let (e1, tx1) = tx_exec (exec_script read_file script (read_file m.path).0) tx in
      unless_error e1 (λ x. rollback (some x) tx1)
        (let (e2, tx2) = tx_exec (insert_version read_file script m.version) tx1 in
          unless_error e2 (λ x. rollback (some x) tx2) (commit tx2))

  unfoldable pub all_migrated : List Migration → Schema S → Option (Schema S)
  all_migrated [] t = some t
  all_migrated (m ∷ l) t = and_then (migrated m t) (all_migrated l)

  -- The transaction of one migration.
  body-AllOrNothing :
      (m : Migration) (old : Schema S) (tx : Tx (Schema S))
      → Follows old (some old) tx
      → AllOrNothing old (migrated m old) (in_transaction m tx)
  body-AllOrNothing m old tx h =
      let one = exec_script read_file script (read_file m.path).0 in
      let two = insert_version read_file script m.version in
      let (e1, tx1) = tx_exec one tx in
      let (e2, tx2) = tx_exec two tx1 in
      let first = Follows-tx_exec one old (some old) tx h in
      let second = Follows-tx_exec two old (one old) tx1 first in
      unless_error-AllOrNothing old (migrated m old) e1 some tx1
        (unless_error e2 (λ x. rollback (some x) tx2) (commit tx2)) first.before (λ x. (x, refl))
        (unless_error-AllOrNothing old (migrated m old) e2 some tx2 (commit tx2) second.before
          (λ x. (x, refl)) (commit-AllOrNothing old (migrated m old) tx2 second))

  pub apply_one-AllOrNothing :
      (m : Migration) (db : Db (Schema S))
      → AllOrNothing db.tables (migrated m db.tables) (apply_one read_file script m db)
  unfolding apply_one
  apply_one-AllOrNothing m db = elim (Option-cases (read_file m.path).1) [
    | inl readable ↦
        rw (readable, apply_one) (in_tx-AllOrNothing _ _ db (body-AllOrNothing m db.tables))
    | inr (e, unreadable) ↦ rw (unreadable, apply_one) (inl refl)
  ]

  -- The first of the pending migrations, up to some point, are applied as a whole and in order, and
  -- none of the others has left a trace; without an error all are applied.
  pub record Progress (old : Schema S) (files : List Migration) (result : Err × Db (Schema S))
      : Type ℓ where
    pub done : List Migration
    pub left : List Migration
    pub parts : done ++ left ≡ files
    pub made : all_migrated done old ≡ some result.1.tables
    pub complete : result.0 ≡ none → left ≡ []

  nothing_done :
      (old : Schema S) (files : List Migration) (e : String) (db : Db (Schema S))
      → db.tables ≡ old
      → Progress old files (some e, db)
  unfolding all_migrated
  nothing_done old files e db same = record {
    done = [];
    left = files;
    parts = refl;
    made = ap some (sym same);
    complete = λ h. cc;
  }

  Progress-cons :
      (m : Migration) (files : List Migration) (old t : Schema S) (result : Err × Db (Schema S))
      → migrated m old ≡ some t
      → Progress t files result
      → Progress old (m ∷ files) result
  unfolding all_migrated
  Progress-cons m files old t result step rest = record {
    done = m ∷ rest.done;
    left = rest.left;
    parts = ap (λ l. m ∷ l) rest.parts;
    made = rw (step, all_migrated) rest.made;
    complete = rest.complete;
  }

  Progress-after_apply :
      (m : Migration) (files : List Migration) (old : Schema S) (result : Err × Db (Schema S))
      (rest : Db (Schema S) → Err × Db (Schema S))
      → AllOrNothing old (migrated m old) result
      → ((db : Db (Schema S)) → Progress db.tables files (rest db))
      → Progress old (m ∷ files) (after_apply read_file script m result rest)
  Progress-after_apply m files old (none, db) rest step ih =
      Progress-cons m files old db.tables (rest db) step (ih db)
  Progress-after_apply m files old (some e, db) rest (inl same) ih =
      nothing_done old (m ∷ files) _ db same
  Progress-after_apply m files old (some e, db) rest (inr step) ih =
      Progress-cons m files old db.tables _ step (nothing_done db.tables files _ db refl)

  Progress-run_files :
      (applied : List ℤ) (files : List Migration) (db : Db (Schema S))
      → Progress db.tables (pending applied files) (run_files read_file script applied files db)
  unfolding run_files pending all_migrated
  Progress-run_files applied [] db = record {
    done = [];
    left = [];
    parts = refl;
    made = refl;
    complete = λ h. refl;
  }
  Progress-run_files applied (m ∷ files) db = elim (Bool-cases (has_version m.version applied)) [
    | inl old ↦ rw (old, pending, run_files) (Progress-run_files applied files db)
    | inr new ↦
        rw (new, pending, run_files)
          (Progress-after_apply m (pending applied files) db.tables
            (apply_one read_file script m db) (run_files read_file script applied files)
            (apply_one-AllOrNothing m db) (Progress-run_files applied files))
  ]

  Progress-run_applied :
      (o : Outcome) (files : List Migration) (db : Db (Schema S)) (old : Schema S)
      → db.tables ≡ old
      → Progress old
          (pending old.versions files)
          (run_applied read_file script files ((rows_outcome o db.tables.versions), db))
  Progress-run_applied fine files db old same =
      rw (← same) (Progress-run_files db.tables.versions files db)
  Progress-run_applied (refused e) files db old same = nothing_done old _ _ db same
  Progress-run_applied (lost n e) files db old same = nothing_done old _ _ db same

  Progress-run_collected :
      (c : List Migration × Err) (db : Db (Schema S))
      → Progress db.tables (pending db.tables.versions c.0) (run_collected read_file script c db)
  unfolding query
  Progress-run_collected (files, some e) db = nothing_done db.tables _ _ db refl
  Progress-run_collected (files, none) db =
      Progress-run_applied (head_outcome db.outcomes) files _ db.tables refl

  Progress-run_ensured :
      (o : Outcome) (entries : List DirEntry) (db : Db (Schema S))
      → Progress db.tables
          (pending db.tables.versions (collect_up_migrations entries).0)
          (run_ensured read_file script entries (exec_outcome o (some db.tables) db))
  Progress-run_ensured (refused e) entries db = nothing_done db.tables _ _ db refl
  Progress-run_ensured (lost n e) entries db = nothing_done db.tables _ _ db refl
  Progress-run_ensured fine entries db = Progress-run_collected (collect_up_migrations entries) _

  -- A run applies, of the files that are not in schema_migrations, the first up to some point, each
  -- as a whole and in their order; the others leave no trace, and without an error there are none.
  pub run-Progress :
      (entries : List DirEntry) (db : Db (Schema S))
      → Progress db.tables
          (pending db.tables.versions (collect_up_migrations entries).0)
          (run read_file script entries db)
  unfolding run exec query
  run-Progress entries db = Progress-run_ensured (head_outcome db.outcomes) entries _
