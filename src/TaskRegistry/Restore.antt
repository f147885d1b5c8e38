-- ===== src/TaskRegistry/Restore.antt =====
-- backend/app/core/task_registry.py: `TaskRegistry.restore` and `enable_persistence`.
use mama_ai.Prelude.{ℕ, suc, Bool, ◌&&◌, some, List, [], ◌∷◌, length, if◌then◌else◌}
use mama_ai.Dict
use mama_ai.Dict.{Dict}
use mama_ai.Exec.{Exec, pure, lift, gets, modify, put_back, ◌>>=◌, ◌>>◌}
use mama_ai.Result.{Result, ok, err}
use mama_ai.Task.{running, failed, same}
use mama_ai.Task.Record.{TaskRecord, transition}
use mama_ai.Task.Row.{TaskRow, from_row}
use mama_ai.TaskRegistry.{TaskRegistry, require_store, save_to, attach}

module _ {J Db : Type 0} (save_task : TaskRecord J → Exec Db (Unit {0}))
    (list_tasks : ℕ → Exec Db (List (TaskRow J))) where
  -- a running task is marked failed and saved, if interrupted tasks are to be recovered
  unfoldable pub recover : Bool → ℕ → TaskRecord J → Exec (TaskRegistry J Db) (TaskRecord J)
  recover recover_interrupted now r =
      if recover_interrupted && same r.status running
      then (do
        r' ← lift (
            transition failed (some "Task interrupted by backend restart.")
              (some "The backend restarted before the task could complete.") now r)
        gets (λ s. require_store s.persistence_enabled s.store) >>= λ db. save_to save_task db r'
        pure r')
      else pure r

  -- the loop over the rows; row number `i` reads `clock i`
  unfoldable pub restore_rows :
      Bool
      → (ℕ → ℕ)
      → ℕ
      → Dict (TaskRecord J)
      → List (TaskRow J)
      → Exec (TaskRegistry J Db) (Dict (TaskRecord J))
  restore_rows recover_interrupted clock i restored [] = pure restored
  restore_rows recover_interrupted clock i restored (row ∷ rows) = do
    r ← lift (from_row row)
    r' ← recover recover_interrupted (clock i) r
    restore_rows recover_interrupted clock (suc i) (Dict.put r'.task_id r' restored) rows

  -- the read of the rows, at the store that `_require_store` returned
  unfoldable pub list_from : Result Db → Exec (TaskRegistry J Db) (List (TaskRow J))
  list_from (err e) s = (err e, s)
  list_from (ok db) s = put_back (list_tasks 1000 db) (λ db'. record s { store = some db' })

  -- `TaskRegistry.restore`
  unfoldable pub restore : Bool → (ℕ → ℕ) → Exec (TaskRegistry J Db) ℕ
  restore recover_interrupted clock = do
    db ← gets (λ s. require_store s.persistence_enabled s.store)
    rows ← list_from db
    restored ← restore_rows recover_interrupted clock 0 [] rows
    modify (λ s. record s { records = restored })
    pure (length restored)

  -- `TaskRegistry.enable_persistence`
  unfoldable pub enable_persistence : Db → Bool → Bool → (ℕ → ℕ) → Exec (TaskRegistry J Db) ℕ
  enable_persistence db restore_first recover_interrupted clock =
      attach db >> (if restore_first then restore recover_interrupted clock else pure 0)
