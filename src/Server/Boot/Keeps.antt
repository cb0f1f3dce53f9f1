-- ===== src/Server/Boot/Keeps.antt =====
-- What the boot keeps of the tables.
use nexlog_server.Base.{
  some_injective, String, Option-cases, Bool-cases, ◌≡◌, refl, sym, ap, subst, List, [], ◌∷◌,
  Option, none, some, inl, inr,
}
use nexlog_server.Config.{Config, Loaded, loaded, load}
use nexlog_server.Config
use nexlog_server.Logger
use nexlog_server.Logger.{Log, no_log}
use nexlog_server.Text.{itoa}
use nexlog_server.Pool.{
  open_pool-tables, Opened, opened, failed, open_pool, after_open, after_ping, ping,
}
use nexlog_server.Pool
use nexlog_server.Sql.{Db, Err}
use nexlog_server.Sql.Laws.{and_then}
use nexlog_server.Migrate.{Migration, Schema, DirEntry, insert_version, has_version}
use nexlog_server.Int.{ℤ}
use nexlog_server.Migrate
use nexlog_server.Migrate.Progress.{all_migrated, migrated, run-Progress}
use nexlog_server.Repository.Tables.{Tables}
use nexlog_server.Service.Seed.Invariant.{Seedable, Seedable-seed_if_empty}
use nexlog_server.Server.Boot.{
  Host, service_db, after_seed, after_migrate, after_pool, after_info, after_load, boot,
}

-- A script, if it runs at all, keeps the tables well formed and ready for SeedIfEmpty.
abbrev pub ScriptsKeep : Host → Type 0
ScriptsKeep host =
    (text : String) (t u : Tables) → host.script text t ≡ some u → Seedable t → Seedable u

-- What a migration that succeeded did to the tables, by what its script gave.
scripted :
    (o : Option Tables) (v : ℤ) (t u : Schema Tables)
    → and_then
        (elim o [ none ↦ none | some s ↦ some (record t { state = s }) ])
        (insert_version (λ path. ("", none)) (λ text (t : Tables). some t) v)
      ≡ some u
    → (s : Tables) × (o ≡ some s) × (u.state ≡ s)
scripted none v t u made = cc
scripted (some s) v t u made = elim (Bool-cases (has_version v t.versions)) [
  | inl there ↦ let f : none ≡ some u = rw there at made in cc
  | inr new ↦ (s, refl, ap (λ x. x.state) (sym (some_injective _ u (rw new at made))))
]

module _ (host : Host) (keeps : ScriptsKeep host) where
  Seedable-migrated :
      (m : Migration) (t u : Schema Tables)
      → migrated host.read_file host.script m t ≡ some u
      → Seedable t.state
      → Seedable u.state
  Seedable-migrated m t u made h =
      let (next, accepts, same) =
        scripted (host.script (host.read_file m.path).0 t.state) m.version t u made in
      subst Seedable (sym same) (keeps (host.read_file m.path).0 t.state next accepts h)

  Seedable-all_migrated :
      (l : List Migration) (t u : Schema Tables)
      → all_migrated host.read_file host.script l t ≡ some u
      → Seedable t.state
      → Seedable u.state
  unfolding all_migrated
  Seedable-all_migrated [] t u made h = subst (λ x. Seedable x.state) (some_injective t u made) h
  Seedable-all_migrated (m ∷ l) t u made h =
      elim (Option-cases (migrated host.read_file host.script m t)) [
        | inl refused ↦ let impossible : none ≡ some u = rw refused at made in cc
        | inr (v, step) ↦
            Seedable-all_migrated l v u (rw step at made) (Seedable-migrated m t v step h)
      ]

  Seedable-run :
      (entries : List DirEntry) (db : Db (Schema Tables))
      → Seedable db.tables.state
      → Seedable (Migrate.run host.read_file host.script entries db).1.tables.state
  Seedable-run entries db h =
      let progress = run-Progress host.read_file host.script entries db in
      Seedable-all_migrated progress.done db.tables _ progress.made h

  Seedable-after_seed :
      (cfg : Config) (log : Log) (pool : Pool.Pool) (db : Db (Schema Tables))
      (result : Err × Db Tables)
      → Seedable result.1.tables
      → Seedable (after_seed host cfg log pool db result).1.tables.state
  Seedable-after_seed cfg log pool db (none, d) h = h
  Seedable-after_seed cfg log pool db (some e, d) h = h

  Seedable-after_migrate :
      (cfg : Config) (log : Log) (pool : Pool.Pool) (result : Err × Db (Schema Tables))
      → Seedable result.1.tables.state
      → Seedable (after_migrate host cfg log pool result).1.tables.state
  Seedable-after_migrate cfg log pool (some e, db) h = h
  Seedable-after_migrate cfg log pool (none, db) h = Seedable-after_seed cfg log pool db _ (
      Seedable-seed_if_empty host.packages.codec (host.packages.hash_password host.random)
        host.languages (service_db db) h)

  Seedable-after_pool :
      (cfg : Config) (log : Log) (result : Opened × Db (Schema Tables))
      → Seedable result.1.tables.state
      → Seedable (after_pool host cfg log result).1.tables.state
  Seedable-after_pool cfg log (failed e, db) h = h
  Seedable-after_pool cfg log (opened pool, db) h =
      Seedable-after_migrate cfg log pool _ (Seedable-run (host.read_dir cfg.migrations_dir) db h)

  Seedable-after_info :
      (cfg : Config) (log : Option Log) (db : Db (Schema Tables))
      → Seedable db.tables.state
      → Seedable (after_info host cfg log db).1.tables.state
  Seedable-after_info cfg none db h = h
  Seedable-after_info cfg (some log) db h =
      Seedable-after_pool cfg log _
        (subst (λ t. Seedable t.state) (sym (open_pool-tables host.sql_open cfg db)) h)

  Seedable-after_load :
      (l : Loaded) (db : Db (Schema Tables))
      → Seedable db.tables.state
      → Seedable (after_load host l db).1.tables.state
  Seedable-after_load (Config.failed e) db h = h
  Seedable-after_load (loaded cfg) db h =
      Seedable-after_info cfg
        (Logger.info "🔧 Go runtime" ("GOMAXPROCS" ∷ itoa host.num_cpu ∷ [])
          (Logger.init cfg.is_dev no_log))
        db h

  pub Seedable-boot :
      (db : Db (Schema Tables)) → Seedable db.tables.state → Seedable (boot host db).1.tables.state
  unfolding boot
  Seedable-boot db h = Seedable-after_load (load host.parse_duration host.env) db h
