-- ===== src/Migrate/Tests.antt =====
-- Migrations of a concrete directory.
use nexlog_server.Base.{ℕ, suc, String, ◌≡◌, refl, List, [], ◌∷◌, Option, none, some, false, true}
use nexlog_server.Int.{pos}
use nexlog_server.Sql.{Db}
use nexlog_server.Migrate.{DirEntry, Schema, run, collect_up_migrations}
use nexlog_server.Migrate.Progress.{pending, Progress, run-Progress}

abbrev file : String → DirEntry
file path = record { path = path; is_dir = false; problem = none }

abbrev entries : List DirEntry
entries =
    record { path = "migrations"; is_dir = true; problem = none }
    ∷ file "migrations/0002_index.up.sql"
    ∷ file "migrations/0001_init.up.sql"
    ∷ file "migrations/0001_init.down.sql"
    ∷ []

abbrev content : String → String × Option String
content path = (path, none)

-- A script that counts the scripts.
abbrev count : String → ℕ → Option ℕ
count text n = some (suc n)

abbrev fresh : Db (Schema ℕ)
fresh = record {
  tables = record { state = 0; versions = [] };
  outcomes = [];
  violation = "duplicate key";
  aborted = "current transaction is aborted";
}

collected : collect_up_migrations entries ≡ (
  record { version = pos 1; name = "init"; path = "migrations/0001_init.up.sql" }
      ∷ record { version = pos 2; name = "index"; path = "migrations/0002_index.up.sql" }
      ∷ [],
  none,
)
unfolding collect_up_migrations
collected = refl

run-Progress_example :
    Progress content count fresh.tables
      (pending fresh.tables.versions (collect_up_migrations entries).0)
      (run content count entries fresh)
run-Progress_example = run-Progress content count entries fresh
