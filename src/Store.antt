-- ===== src/Store.antt =====
-- service/db/store.go: the transactions and the start of the store. The calls of database/sql and
-- golang-migrate are arguments, by the errors that they return.
pub mod Calls
mod Tests
use node_util.Base.{List, [], ◌∷◌, ◌++◌, Option, none, some}

-- The calls that end a transaction.
pub data TxCall : Type 0 where
  rollback_call commit_call : TxCall

module _ (E A : Type 0) where
  -- What the action of a transaction returns.
  pub data Returned : Type 0 where
    failure : E → Returned
    value : A → Returned

  pub data TxError : Type 0 where
    begin_error action_error after_error commit_error : E → TxError
    rollback_error : E → E → TxError

module _ {E A : Type 0} where
  abbrev pub commit : Option E → List TxCall × Option (TxError E A)
  commit none = (commit_call ∷ [], none)
  commit (some e) = (commit_call ∷ [], some (commit_error e))

  abbrev pub roll_back : E → Option E → List TxCall × Option (TxError E A)
  roll_back e none = (rollback_call ∷ [], some (action_error e))
  roll_back e (some rb) = (rollback_call ∷ [], some (rollback_error e rb))

  -- execTx: the results of BeginTx, fn, Rollback and Commit; `after` may be nil. Returns the calls
  -- that end the transaction and the error.
  unfoldable pub exec_tx :
      Option E
      → Returned E A
      → Option E
      → Option (A → Option E)
      → Option E
      → List TxCall × Option (TxError E A)
  exec_tx (some e) fn rolled after committed = ([], some (begin_error e))
  exec_tx none (failure e) rolled after committed = roll_back e rolled
  exec_tx none (value obj) rolled none committed = commit committed
  exec_tx none (value obj) rolled (some action) committed = elim (action obj) [
    | none ↦ commit committed
    | some e ↦ ([], some (after_error e))
  ]

-- What migration.Up() returns.
pub data UpResult (E : Type 0) : Type 0 where
  changed no_change : UpResult E
  up_failed : E → UpResult E

pub data StoreError (E : Type 0) : Type 0 where
  init_error migration_error open_error : E → StoreError E

module _ {E : Type 0} where
  -- With the error of migrate.New.
  unfoldable pub run_migration : Option E → UpResult E → Option (StoreError E)
  run_migration (some e) up = some (init_error e)
  run_migration none changed = none
  run_migration none no_change = none
  run_migration none (up_failed e) = some (migration_error e)

  -- NewStore; the last argument is the error of sql.Open.
  unfoldable pub new_store : Option E → UpResult E → Option E → Option (StoreError E)
  unfolding run_migration
  new_store created up opened = elim (run_migration created up) [
    | some e ↦ some e
    | none ↦ elim opened [ none ↦ none | some e ↦ some (open_error e) ]
  ]
