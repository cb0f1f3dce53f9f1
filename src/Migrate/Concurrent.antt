-- ===== src/Migrate/Concurrent.antt =====
-- internal/migrate/migrate.go: Run in any number of processes at once over one database, as where an
-- instance is started beside others. A step is a statement outside a transaction, or a transaction;
-- of two transactions that overlap the database lets one come first.
pub mod Pending
pub mod Recorded
pub mod Consistent
pub mod Prefix
mod Tests
use nexlog_server.Base.{
  ℕ, ◌≡◌, refl, sym, ◌∙◌, ap, subst, Bool, true, false, ◌||◌, List, [], ◌∷◌, ◌++◌, Option, none,
  some, All, nat_eq, inl, inr, Bool-cases, Option-cases, if_both, String, arith, if◌then◌else◌,
}
use mathlib.Core.List.{append_assoc}
use nexlog_server.Int.{ℤ}
use nexlog_server.Sql.{Db, Err}
use nexlog_server.Migrate.{
  Migration, Schema, has_version, eq_int, apply_one, ensure_migrations_table, applied_versions,
}

-- Where a process is in Run. `looping applied files`: it has read the versions `applied`, and has the
-- files left.
pub data Place : Type 0 where
  idle ensured finished stopped : Place
  looping : List ℤ → List Migration → Place

module _ {ℓ} {S : Type ℓ} (read_file : String → String × Err) (script : String → S → Option S)
    (files : List Migration) where
  -- The processes are numbered.
  pub record System : Type ℓ where
    pub db : Db (Schema S)
    pub place : ℕ → Place

  abbrev pub move : ℕ → Place × Db (Schema S) → System → System
  move i (p, db) s = record { db = db; place = λ j. if nat_eq i j then p else s.place j }

  abbrev pub after_ensure : Err × Db (Schema S) → Place × Db (Schema S)
  after_ensure (none, db) = (ensured, db)
  after_ensure (some e, db) = (stopped, db)

  abbrev pub after_read : (Option (List ℤ) × Err) × Db (Schema S) → Place × Db (Schema S)
  after_read ((found, some e), db) = (stopped, db)
  after_read ((none, none), db) = (looping [] files, db)
  after_read ((some applied, none), db) = (looping applied files, db)

  abbrev pub after_round : List ℤ → List Migration → Err × Db (Schema S) → Place × Db (Schema S)
  after_round applied rest (none, db) = (looping applied rest, db)
  after_round applied rest (some e, db) = (stopped, db)

  -- One round of the loop.
  abbrev pub round : List ℤ → Migration → List Migration → Db (Schema S) → Place × Db (Schema S)
  round applied m rest db =
      if has_version m.version applied
      then (looping applied rest, db)
      else after_round applied rest (apply_one read_file script m db)

  pub data Step (s : System) : System → Type ℓ where
    ensures :
        (i : ℕ)
        → s.place i ≡ idle
        → Step s (move i (after_ensure (ensure_migrations_table read_file script s.db)) s)
    reads :
        (i : ℕ)
        → s.place i ≡ ensured
        → Step s (move i (after_read (applied_versions read_file script s.db)) s)
    rounds :
        (i : ℕ) (applied : List ℤ) (m : Migration) (rest : List Migration)
        → s.place i ≡ looping applied (m ∷ rest)
        → Step s (move i (round applied m rest s.db) s)
    ends :
        (i : ℕ) (applied : List ℤ)
        → s.place i ≡ looping applied []
        → Step s (move i (finished, s.db) s)

  pub data Reach (db : Db (Schema S)) : System → Type ℓ where
    start : Reach db (record { db = db; place = λ i. idle })
    later : {s t : System} → Reach db s → Step s t → Reach db t
