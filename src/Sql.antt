-- ===== src/Sql.antt =====
-- database/sql over PostgreSQL, as the program sees it. A statement is a function on the tables,
-- none where it violates a constraint. What else may go wrong with a call (a timeout, a lost
-- connection, a refusal by the server) is a list of outcomes that the state carries, one for each
-- call to come; the theorems hold for every such list. Go's pair of a value and an error is a pair
-- with an optional text.
pub mod Laws
use nexlog_server.Base.{
  ℕ, zero, suc, String, Bool, true, false, List, [], ◌∷◌, Option, none, some, take, if◌then◌else◌,
}

-- `refused`: the call has no effect. `lost n`: the call took effect, and the answer was lost; of a
-- query's rows `n` had arrived.
pub data Outcome : Type 0 where
  fine : Outcome
  refused : String → Outcome
  lost : ℕ → String → Outcome

pub record Db {ℓ} (T : Type ℓ) : Type ℓ where
  pub tables : T
  pub outcomes : List Outcome
  -- the server's error for a violated constraint, and for a statement after a failed one
  pub violation : String
  pub aborted : String

abbrev pub head_outcome : List Outcome → Outcome
head_outcome [] = fine
head_outcome (o ∷ os) = o

abbrev pub tail_outcomes : List Outcome → List Outcome
tail_outcomes [] = []
tail_outcomes (o ∷ os) = os

abbrev pub Err : Type 0
Err = Option String

abbrev pub row_or {ℓ} : {A : Type ℓ} → A → Option A → A × Err
row_or zero_value none = (zero_value, some "sql: no rows in result set")
row_or zero_value (some a) = (a, none)

abbrev pub one_outcome {ℓ} : {A : Type ℓ} → A → Outcome → Option A → A × Err
one_outcome zero_value fine row = row_or zero_value row
one_outcome zero_value (refused e) row = (zero_value, some e)
one_outcome zero_value (lost n e) row = (zero_value, some e)

abbrev pub rows_outcome {ℓ} : {A : Type ℓ} → Outcome → List A → Option (List A) × Err
rows_outcome fine rows = (some rows, none)
rows_outcome (refused e) rows = (none, some e)
rows_outcome (lost n e) rows = (some (take n rows), some e)

module _ {ℓ} {T : Type ℓ} where
  abbrev spend : Db T → Db T
  spend db = record db { outcomes = tail_outcomes db.outcomes }

  -- A statement that changed the tables, or violated a constraint.
  abbrev effect : Option T → Db T → Err × Db T
  effect none db = (some db.violation, db)
  effect (some t) db = (none, record db { tables = t })

  abbrev answer : Err → Err × Db T → Err × Db T
  answer none (e, db) = (e, db)
  answer (some message) (e, db) = (some message, db)

  abbrev pub exec_outcome : Outcome → Option T → Db T → Err × Db T
  exec_outcome fine t db = effect t db
  exec_outcome (refused e) t db = (some e, db)
  exec_outcome (lost n e) t db = answer (some e) (effect t db)

  -- db.ExecContext outside a transaction
  unfoldable pub exec : (T → Option T) → Db T → Err × Db T
  exec stmt db = exec_outcome (head_outcome db.outcomes) (stmt db.tables) (spend db)

  -- db.QueryRowContext(…).Scan(…)
  unfoldable pub query_row {κ} : {A : Type κ} → A → (T → Option A) → Db T → (A × Err) × Db T
  query_row zero_value select db =
      (one_outcome zero_value (head_outcome db.outcomes) (select db.tables), spend db)

  -- db.QueryContext and the loop over the rows; none is a nil slice. What arrived before the answer
  -- was lost is returned beside the error, as the program's `return out, rows.Err()` does.
  unfoldable pub query {κ} : {A : Type κ} → (T → List A) → Db T → (Option (List A) × Err) × Db T
  query select db = (rows_outcome (head_outcome db.outcomes) (select db.tables), spend db)

-- A transaction: its own view of the tables, and whether a statement in it has failed.
pub record Tx {ℓ} (T : Type ℓ) : Type ℓ where
  pub db : Db T
  pub working : T
  pub failed : Bool

module _ {ℓ} {T : Type ℓ} where
  abbrev pub begin_outcome : Outcome → Db T → Option (Tx T) × Err × Db T
  begin_outcome fine db = (some (record { db = db; working = db.tables; failed = false }), none, db)
  begin_outcome (refused e) db = (none, some e, db)
  begin_outcome (lost n e) db = (none, some e, db)

  -- db.BeginTx
  unfoldable pub begin : Db T → Option (Tx T) × Err × Db T
  begin db = begin_outcome (head_outcome db.outcomes) (spend db)

  abbrev tx_effect : Option T → Tx T → Err × Tx T
  tx_effect none tx = (some tx.db.violation, record tx { failed = true })
  tx_effect (some t) tx = (none, record tx { working = t })

  abbrev tx_outcome : Outcome → Option T → Tx T → Err × Tx T
  tx_outcome fine t tx = tx_effect t tx
  tx_outcome (refused e) t tx = (some e, record tx { failed = true })
  tx_outcome (lost n e) t tx = (some e, record tx { failed = true })

  abbrev spend_tx : Tx T → Tx T
  spend_tx tx = record tx { db = spend tx.db }

  -- tx.ExecContext: after a failed statement every further one fails.
  unfoldable pub tx_exec : (T → Option T) → Tx T → Err × Tx T
  tx_exec stmt tx =
      if tx.failed
      then (some tx.db.aborted, spend_tx tx)
      else tx_outcome (head_outcome tx.db.outcomes) (stmt tx.working) (spend_tx tx)

  abbrev commit_outcome : Outcome → T → Db T → Err × Db T
  commit_outcome fine t db = (none, record db { tables = t })
  commit_outcome (refused e) t db = (some e, db)
  commit_outcome (lost n e) t db = (some e, record db { tables = t })

  -- tx.Commit: of a failed transaction it rolls back and returns an error.
  unfoldable pub commit : Tx T → Err × Db T
  commit tx =
      if tx.failed
      then (some tx.db.aborted, spend tx.db)
      else commit_outcome (head_outcome tx.db.outcomes) tx.working (spend tx.db)

  -- The deferred tx.Rollback after an early return.
  abbrev pub rollback : Err → Tx T → Err × Db T
  rollback e tx = (e, tx.db)

  -- BeginTx, and the rest of the function if it succeeds.
  abbrev pub in_tx : Option (Tx T) × Err × Db T → (Tx T → Err × Db T) → Err × Db T
  in_tx (none, e, db) body = (e, db)
  in_tx (some tx, e, db) body = body tx

  -- `if err != nil { return … }`
  abbrev pub unless_error : Err → (String → Err × Db T) → Err × Db T → Err × Db T
  unless_error none failed ok = ok
  unless_error (some e) failed ok = failed e
