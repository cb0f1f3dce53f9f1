-- ===== src/Migrate/Concurrent/Tests.antt =====
-- Two processes that migrate one database.
use nexlog_server.Base.{ℕ, suc, String, ◌≡◌, refl, List, [], ◌∷◌, ◌++◌, Option, none, some}
use nexlog_server.Int.{pos}
use nexlog_server.Sql.{Db, exec, query, begin, tx_exec, commit}
use nexlog_server.Migrate.{
  Migration, Schema, has_version, apply_one, ensure_migrations_table, applied_versions,
}
use nexlog_server.Migrate.Progress.{pending, all_migrated}
use nexlog_server.Migrate.Concurrent.{
  idle, stopped, System, move, after_ensure, after_read, round, Reach, start, later, ensures, reads,
  rounds,
}
use nexlog_server.Migrate.Concurrent.Consistent.{AllDone}
use nexlog_server.Migrate.Concurrent.Prefix.{Reach-pending}

abbrev content : String → String × Option String
content path = (path, none)

-- A script that counts the scripts.
abbrev count : String → ℕ → Option ℕ
count text n = some (suc n)

abbrev first : Migration
first = record { version = pos 1; name = "init"; path = "migrations/0001_init.up.sql" }

abbrev second : Migration
second = record { version = pos 2; name = "index"; path = "migrations/0002_index.up.sql" }

abbrev two : List Migration
two = first ∷ second ∷ []

abbrev fresh : Db (Schema ℕ)
fresh = record {
  tables = record { state = 0; versions = [] };
  outcomes = [];
  violation = "duplicate key";
  aborted = "current transaction is aborted";
}

abbrev ensure : ℕ → System content count two → System content count two
ensure i s =
    move content count two i
      (after_ensure content count two (ensure_migrations_table content count s.db)) s

abbrev look : ℕ → System content count two → System content count two
look i s =
    move content count two i (after_read content count two (applied_versions content count s.db)) s

abbrev try_first : ℕ → System content count two → System content count two
try_first i s = move content count two i (round content count two [] first (second ∷ []) s.db) s

-- Both have found nothing applied, and have then tried the first migration, of which one came first.
abbrev raced : System content count two
raced =
    try_first 1 (
      try_first 0
        (look 1 (look 0 (ensure 1 (ensure 0 (record { db = fresh; place = λ i. idle }))))))

raced_reached : Reach content count two fresh raced
unfolding exec query
raced_reached =
    later
      (later
        (later (later (later (later start (ensures 0 refl)) (ensures 1 refl)) (reads 0 refl))
          (reads 1 refl))
        (rounds 0 [] first (second ∷ []) refl))
      (rounds 1 [] first (second ∷ []) refl)

-- The second one was refused, and stops.
raced_place : raced.place 1 ≡ stopped
unfolding exec query has_version apply_one begin tx_exec commit
raced_place = refl

Reach-pending_example :
    (done : List Migration) × (done ++ pending raced.db.tables.versions two
      ≡ pending fresh.tables.versions two)
    × (all_migrated content count done fresh.tables ≡ some raced.db.tables)
    × AllDone two raced.db.tables.versions (raced.place 1)
Reach-pending_example =
    Reach-pending content count two fresh raced 1 ((refl, tt), (tt, tt)) raced_reached
