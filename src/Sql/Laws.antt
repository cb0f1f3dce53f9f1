-- ===== src/Sql/Laws.antt =====
-- A call of the database succeeds with its whole effect, or fails with its whole effect or none.
use nexlog_server.Base.{[], String, ◌≡◌, refl, ◌⊎◌, inl, inr, Option, none, some, false, Bool-cases}
use nexlog_server.Sql.{
  Outcome, fine, refused, lost, Db, Err, Tx, exec, exec_outcome, head_outcome, begin, begin_outcome,
  in_tx, unless_error, rollback, tx_exec, tx_outcome, commit, commit_outcome,
}

-- The call succeeded, and the database will go on to answer.
abbrev pub Fine {ℓ} : {T : Type ℓ} → T → Err × Db T → Type ℓ
Fine t result = (result.0 ≡ none) × (result.1.tables ≡ t) × (result.1.outcomes ≡ [])

module _ {ℓ} {T : Type ℓ} where
  -- `old` is the tables before the call, `target` those that it is to make.
  abbrev pub AllOrNothing : T → Option T → Err × Db T → Type ℓ
  AllOrNothing old target (none, db) = target ≡ some db.tables
  AllOrNothing old target (some e, db) = (db.tables ≡ old) ⊎ (target ≡ some db.tables)

  -- Without an error the whole effect is there.
  pub succeeded :
      (old : T) (target : Option T) (result : Err × Db T)
      → result.0 ≡ none
      → AllOrNothing old target result
      → target ≡ some result.1.tables
  succeeded old target (none, db) ok h = h
  succeeded old target (some e, db) ok h = cc

  exec_outcome_lem :
      (o : Outcome) (t : Option T) (db : Db T) → AllOrNothing db.tables t (exec_outcome o t db)
  exec_outcome_lem fine none db = inl refl
  exec_outcome_lem fine (some t) db = refl
  exec_outcome_lem (refused e) t db = inl refl
  exec_outcome_lem (lost n e) none db = inl refl
  exec_outcome_lem (lost n e) (some t) db = inr refl

  pub exec-AllOrNothing :
      (stmt : T → Option T) (db : Db T) → AllOrNothing db.tables (stmt db.tables) (exec stmt db)
  unfolding exec
  exec-AllOrNothing stmt db = exec_outcome_lem (head_outcome db.outcomes) (stmt db.tables) _

  -- The transaction began on the tables `old`; while it has not failed, its statements have made
  -- `target`.
  pub record Follows (old : T) (target : Option T) (tx : Tx T) : Type ℓ where
    pub before : tx.db.tables ≡ old
    pub made : tx.failed ≡ false → target ≡ some tx.working

  abbrev pub and_then : Option T → (T → Option T) → Option T
  and_then none f = none
  and_then (some t) f = f t

  tx_outcome_lem :
      (o : Outcome) (old : T) (t : Option T) (tx : Tx T)
      → tx.db.tables ≡ old
      → Follows old t (tx_outcome o t tx).1
  tx_outcome_lem fine old none tx before = record { before = before; made = λ e. cc }
  tx_outcome_lem fine old (some t) tx before = record { before = before; made = λ e. refl }
  tx_outcome_lem (refused e) old t tx before = record { before = before; made = λ h. cc }
  tx_outcome_lem (lost n e) old t tx before = record { before = before; made = λ h. cc }

  pub Follows-tx_exec :
      (stmt : T → Option T) (old : T) (target : Option T) (tx : Tx T)
      → Follows old target tx
      → Follows old (and_then target stmt) (tx_exec stmt tx).1
  unfolding tx_exec
  Follows-tx_exec stmt old target tx h = elim (Bool-cases tx.failed) [
    | inl bad ↦ rw (bad, tx_exec) (record { before = h.before; made = λ e. cc })
    | inr good ↦
        rw (h.made good, good, tx_exec)
          (tx_outcome_lem (head_outcome tx.db.outcomes) old (stmt tx.working) _ h.before)
  ]

  commit_outcome_lem :
      (o : Outcome) (old t : T) (db : Db T)
      → db.tables ≡ old
      → AllOrNothing old (some t) (commit_outcome o t db)
  commit_outcome_lem fine old t db e = refl
  commit_outcome_lem (refused m) old t db e = inl e
  commit_outcome_lem (lost n m) old t db e = inr refl

  pub commit-AllOrNothing :
      (old : T) (target : Option T) (tx : Tx T)
      → Follows old target tx
      → AllOrNothing old target (commit tx)
  unfolding commit
  commit-AllOrNothing old target tx h = elim (Bool-cases tx.failed) [
    | inl bad ↦ rw (bad, commit) (inl h.before)
    | inr good ↦
        rw (h.made good, good, commit)
          (commit_outcome_lem (head_outcome tx.db.outcomes) old tx.working _ h.before)
  ]

-- A body that commits what it made, or rolls back, makes the whole function atomic.
module _ {ℓ} {T : Type ℓ} (target : Option T) (body : Tx T → Err × Db T) where
  begin_outcome_lem :
      (o : Outcome) (db : Db T)
      → ((tx : Tx T)
          → Follows db.tables (some db.tables) tx
          → AllOrNothing db.tables target (body tx))
      → AllOrNothing db.tables target (in_tx (begin_outcome o db) body)
  begin_outcome_lem fine db ok = ok _ (record { before = refl; made = λ e. refl })
  begin_outcome_lem (refused e) db ok = inl refl
  begin_outcome_lem (lost n e) db ok = inl refl

  pub in_tx-AllOrNothing :
      (db : Db T)
      → ((tx : Tx T)
          → Follows db.tables (some db.tables) tx
          → AllOrNothing db.tables target (body tx))
      → AllOrNothing db.tables target (in_tx (begin db) body)
  unfolding begin
  in_tx-AllOrNothing db ok = begin_outcome_lem (head_outcome db.outcomes) _ ok

module _ {ℓ} {T : Type ℓ} where
  -- A failed call ends in a rollback, which leaves the tables as they were.
  pub unless_error-AllOrNothing :
      (old : T) (target : Option T) (e : Err) (message : String → Err) (tx : Tx T)
      (rest : Err × Db T)
      → tx.db.tables ≡ old
      → ((m : String) → (n : String) × (message m ≡ some n))
      → AllOrNothing old target rest
      → AllOrNothing old target (unless_error e (λ m. rollback (message m) tx) rest)
  unless_error-AllOrNothing old target none message tx rest before named ok = ok
  unless_error-AllOrNothing old target (some m) message tx rest before named ok =
      let (n, e) = named m in rw e (inl before)
