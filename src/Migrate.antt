-- ===== src/Migrate.antt =====
-- internal/migrate/migrate.go. The files and their contents, and what a script does to the state
-- of the database beside the table schema_migrations, are parameters.
pub mod Order
pub mod Progress
pub mod Rerun
pub mod Complete
pub mod Concurrent
mod Tests
use Prim.Native.String
use nexlog_server.Base.{
  ℕ, String, Bool, true, false, List, [], ◌∷◌, ◌++◌, Option, none, some, not, ◌||◌, ltb, nat_eq,
  ◌==◌, if◌then◌else◌,
}
use nexlog_server.Text.Quoted.{quoted}
use nexlog_server.Int.{ℤ, pos, negsuc}
use nexlog_server.Text.{
  atoi, has_suffix, head_before, last_element, trim_prefix, trim_suffix, strip_prefix,
}
use nexlog_server.Sql.{
  Db, Err, Tx, exec, query, begin, tx_exec, in_tx, unless_error, commit, rollback,
}

pub record Migration : Type 0 where
  pub version : ℤ
  pub name : String
  pub path : String

abbrev pub lt_int : ℤ → ℤ → Bool
lt_int (pos a) (pos b) = ltb a b
lt_int (pos a) (negsuc b) = false
lt_int (negsuc a) (pos b) = true
lt_int (negsuc a) (negsuc b) = ltb b a

abbrev pub eq_int : ℤ → ℤ → Bool
eq_int (pos a) (pos b) = nat_eq a b
eq_int (pos a) (negsuc b) = false
eq_int (negsuc a) (pos b) = false
eq_int (negsuc a) (negsuc b) = nat_eq a b

-- What filepath.WalkDir hands to its function.
pub record DirEntry : Type 0 where
  pub path : String
  pub is_dir : Bool
  pub problem : Err

-- filepath.Base of a path that ends in ".up.sql" is its last element.
unfoldable pub version_text : String → String
unfolding last_element head_before
version_text path = head_before b'_' (last_element path)

unfoldable pub migration_name : String → String
unfolding version_text last_element strip_prefix trim_suffix
migration_name path =
    trim_suffix (trim_prefix (last_element path) (String.◌++◌ (version_text path) "_")) ".up.sql"

-- What `return nil`, an append and an error do with the list so far.
pub data Step : Type 0 where
  skip : Step
  add : Migration → Step
  stop : String → Step

abbrev parsed : String → Option ℤ → Step
parsed path none = stop (
    String.◌++◌ "migration "
      (String.◌++◌ (quoted (last_element path)) ": filename must start with numeric version"))
parsed path (some v) = add (record { version = v; name = migration_name path; path = path })

abbrev visit_clean : DirEntry → Err → Step
visit_clean d (some e) = stop e
visit_clean d none =
    if d.is_dir || not (has_suffix d.path ".up.sql")
    then skip
    else parsed d.path (atoi (version_text d.path))

-- The function that is handed to filepath.WalkDir.
unfoldable pub visit : DirEntry → Step
unfolding has_suffix version_text migration_name atoi
visit d = visit_clean d d.problem

abbrev continue : Step → List Migration × Err → List Migration × Err
continue skip (out, e) = (out, e)
continue (add m) (out, e) = (m ∷ out, e)
continue (stop message) (out, e) = ([], some message)

abbrev walked : Step → List Migration × Err → List Migration × Err
walked (stop message) rest = ([], some message)
walked s rest = continue s rest

unfoldable pub walk : List DirEntry → List Migration × Err
unfolding visit
walk [] = ([], none)
walk (d ∷ ds) = walked (visit d) (walk ds)

-- sort.Slice by the version. It leaves the order of equal versions open; here it is that of the
-- files.
unfoldable pub place : Migration → List Migration → List Migration
place m [] = m ∷ []
place m (n ∷ l) = if lt_int n.version m.version then n ∷ place m l else m ∷ n ∷ l

unfoldable pub sort_migrations : List Migration → List Migration
unfolding place
sort_migrations [] = []
sort_migrations (m ∷ l) = place m (sort_migrations l)

unfoldable pub collect_up_migrations : List DirEntry → List Migration × Err
unfolding walk sort_migrations
collect_up_migrations entries =
    let (out, e) = walk entries in
    elim e [ none ↦ (sort_migrations out, none) | some m ↦ ([], some m) ]

-- The state that scripts change, and the rows of schema_migrations.
pub record Schema {ℓ} (S : Type ℓ) : Type ℓ where
  pub state : S
  pub versions : List ℤ

unfoldable pub has_version : ℤ → List ℤ → Bool
has_version v [] = false
has_version v (u ∷ l) = eq_int u v || has_version v l

module _ {ℓ} {S : Type ℓ} (read_file : String → String × Err) (script : String → S → Option S) where
  abbrev pub exec_script : String → Schema S → Option (Schema S)
  exec_script content t = elim (script content t.state) [
    | none ↦ none
    | some s ↦ some (record t { state = s })
  ]

  -- The version is the primary key.
  abbrev pub insert_version : ℤ → Schema S → Option (Schema S)
  insert_version v t =
      if has_version v t.versions then none else some (record t { versions = t.versions ++ v ∷ [] })

  unfoldable pub apply_one : Migration → Db (Schema S) → Err × Db (Schema S)
  unfolding has_version
  apply_one m db =
      let (content, e) = read_file m.path in
      unless_error e (λ x. (some x, db))
        (in_tx (begin db) λ tx.
          let (e1, tx1) = tx_exec (exec_script content) tx in
          unless_error e1 (λ x. rollback (some x) tx1)
            (let (e2, tx2) = tx_exec (insert_version m.version) tx1 in
              unless_error e2 (λ x. rollback (some x) tx2) (commit tx2)))

  abbrev apply_error : Migration → String → String
  apply_error m e = String.◌++◌ "migrate: apply " (String.◌++◌ m.path (String.◌++◌ ": " e))

  abbrev after_apply :
      Migration → Err × Db (Schema S) → (Db (Schema S) → Err × Db (Schema S)) → Err × Db (Schema S)
  after_apply m (some e, db) rest = (some (apply_error m e), db)
  after_apply m (none, db) rest = rest db

  -- The loop of Run; `applied` is the map that was read before it.
  unfoldable pub run_files : List ℤ → List Migration → Db (Schema S) → Err × Db (Schema S)
  run_files applied [] db = (none, db)
  run_files applied (m ∷ files) db =
      if has_version m.version applied
      then run_files applied files db
      else after_apply m (apply_one m db) (λ db'. run_files applied files db')

  -- The rows of schema_migrations, as the keys of the map.
  abbrev pub applied_versions : Db (Schema S) → (Option (List ℤ) × Err) × Db (Schema S)
  applied_versions = query (λ t. t.versions)

  -- CREATE TABLE IF NOT EXISTS leaves a table that is there alone, and one that is not is modelled
  -- as one with no rows.
  abbrev pub ensure_migrations_table : Db (Schema S) → Err × Db (Schema S)
  ensure_migrations_table = exec (λ t. some t)

  abbrev pub run_applied :
      List Migration → (Option (List ℤ) × Err) × Db (Schema S) → Err × Db (Schema S)
  run_applied files ((found, some e), db) = (some (String.◌++◌ "migrate: read applied: " e), db)
  run_applied files ((none, none), db) = run_files [] files db
  run_applied files ((some applied, none), db) = run_files applied files db

  abbrev run_collected : List Migration × Err → Db (Schema S) → Err × Db (Schema S)
  run_collected (files, some e) db = (some (String.◌++◌ "migrate: collect: " e), db)
  run_collected (files, none) db = run_applied files (applied_versions db)

  abbrev run_ensured : List DirEntry → Err × Db (Schema S) → Err × Db (Schema S)
  run_ensured entries (some e, db) =
      (some (String.◌++◌ "migrate: create schema_migrations: " e), db)
  run_ensured entries (none, db) = run_collected (collect_up_migrations entries) db

  -- Run
  unfoldable pub run : List DirEntry → Db (Schema S) → Err × Db (Schema S)
  unfolding collect_up_migrations run_files
  run entries db = run_ensured entries (ensure_migrations_table db)
