-- ===== src/Pool.antt =====
-- internal/db/db.go. The driver's check of an address is a parameter; the ping is a call of the
-- database without an effect. What database/sql does with the limits is not modelled.
use Prim.Native.String
use nexlog_server.Base.{String, ◌≡◌, refl, ◌∙◌, none, some}
use nexlog_server.Int.{ℤ, pos}
use nexlog_server.Config.{Config}
use nexlog_server.Sql.{Db, Err, Outcome, fine, refused, lost, exec, exec_outcome, head_outcome}

-- The settings of the *sql.DB.
pub record Pool : Type 0 where
  pub url : String
  pub max_open : ℤ
  pub max_idle : ℤ
  pub max_lifetime : ℤ
  pub max_idle_time : ℤ

pub data Opened : Type 0 where
  opened : Pool → Opened
  failed : String → Opened

abbrev pub pool_of : Config → Pool
pool_of cfg = record {
  url = cfg.database_url;
  max_open = cfg.db_max_open;
  max_idle = cfg.db_max_idle;
  max_lifetime = cfg.db_conn_lifetime;
  max_idle_time = pos 600_000_000_000;
}

module _ {ℓ} {T : Type ℓ} where
  -- db.PingContext
  abbrev pub ping : Db T → Err × Db T
  ping = exec (λ t. some t)

  abbrev pub after_ping : Config → Err × Db T → Opened × Db T
  after_ping cfg (none, db) = (opened (pool_of cfg), db)
  after_ping cfg (some e, db) = (failed (String.◌++◌ "db: ping failed: " e), db)

  abbrev pub after_open : Config → Err → Db T → Opened × Db T
  after_open cfg none db = after_ping cfg (ping db)
  after_open cfg (some e) db = (failed (String.◌++◌ "db: open: " e), db)

  -- Open
  unfoldable pub open_pool : (String → Err) → Config → Db T → Opened × Db T
  open_pool sql_open cfg db = after_open cfg (sql_open cfg.database_url) db

  after_ping-tables :
      (cfg : Config) (result : Err × Db T) → (after_ping cfg result).1.tables ≡ result.1.tables
  after_ping-tables cfg (none, db) = refl
  after_ping-tables cfg (some e, db) = refl

  ping-tables :
      (o : Outcome) (db : Db T) → (exec_outcome o (some db.tables) db).1.tables ≡ db.tables
  ping-tables fine db = refl
  ping-tables (refused e) db = refl
  ping-tables (lost n e) db = refl

  after_open-tables :
      (cfg : Config) (e : Err) (db : Db T) → (after_open cfg e db).1.tables ≡ db.tables
  unfolding exec
  after_open-tables cfg none db =
      after_ping-tables cfg (ping db) ∙ ping-tables (head_outcome db.outcomes) _
  after_open-tables cfg (some e) db = refl

  -- Open changes no table.
  pub open_pool-tables :
      (sql_open : String → Err) (cfg : Config) (db : Db T)
      → (open_pool sql_open cfg db).1.tables ≡ db.tables
  unfolding open_pool
  open_pool-tables sql_open cfg db = after_open-tables cfg (sql_open cfg.database_url) db
