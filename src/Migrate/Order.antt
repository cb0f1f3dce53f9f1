-- ===== src/Migrate/Order.antt =====
-- Which migrations are collected, and in which order.
use nexlog_server.Base.{◌≡◌, ◌⊎◌, true, false, List, [], ◌∷◌, some}
use mathlib.Core.List.{Permᴰ}
use mathlib.Core.List.Permᴰ
use nexlog_server.Text.{atoi}
use nexlog_server.Text.Suffix.{EndsIn}
use nexlog_server.Migrate.{
  Migration, DirEntry, Step, skip, add, stop, lt_int, version_text, migration_name,
}

-- No migration stands after one with a higher version.
abbrev pub FirstOf : Migration → List Migration → Type 0
FirstOf m [] = Unit
FirstOf m (n ∷ l) = lt_int n.version m.version ≡ false

abbrev pub IsAscending : List Migration → Type 0
IsAscending [] = Unit
IsAscending (m ∷ l) = FirstOf m l × IsAscending l

-- The entry is a file whose path ends in ".up.sql"; the migration has its path, the version that its
-- name starts with, and the name without those two.
pub record IsUp (d : DirEntry) (m : Migration) : Type 0 where
  pub is_file : d.is_dir ≡ false
  pub ends : EndsIn ".up.sql" d.path
  pub same_path : m.path ≡ d.path
  pub numbered : atoi (version_text d.path) ≡ some m.version
  pub named : m.name ≡ migration_name d.path

-- The migrations of the entries, in their order: one for each that is an up migration.
pub data Collects : List DirEntry → List Migration → Type 0 where
  none_left : Collects [] []
  skipped :
      {d : DirEntry} {ds : List DirEntry} {l : List Migration}
      → (d.is_dir ≡ true) ⊎ ¬ EndsIn ".up.sql" d.path
      → Collects ds l
      → Collects (d ∷ ds) l
  taken :
      {d : DirEntry} {ds : List DirEntry} {m : Migration} {l : List Migration}
      → IsUp d m
      → Collects ds l
      → Collects (d ∷ ds) (m ∷ l)

-- What the function that is handed to the walk makes of an entry.
abbrev Visited : DirEntry → Step → Type 0
Visited d skip = (d.is_dir ≡ true) ⊎ ¬ EndsIn ".up.sql" d.path
Visited d (add m) = IsUp d m
Visited d (stop e) = Unit
