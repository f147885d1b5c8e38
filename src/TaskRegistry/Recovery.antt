-- ===== src/TaskRegistry/Recovery.antt =====
-- backend/app/core/task_registry.py: the records after `restore`.
use mama_ai.Prelude.{
  ℕ, suc, String, ◌≡◌, ◌≢◌, refl, arith, true, List, [], ◌∷◌, Bool-cases, inl, inr, length, Option,
  some,
}
use mama_ai.Dict
use mama_ai.Dict.{Dict}
use mama_ai.Dict.Laws.{Holds, Holds-empty, Holds-put}
use mama_ai.Exec.Ensures.{Ensures, returned, raised, Ensures-lift, Ensures-bind}
use mama_ai.Exec.{Exec, lift}
use mama_ai.Result.{Result, ok, err}
use mama_ai.Task.{running, failed, same}
use mama_ai.Task.Lifecycle.{same_iff}
use mama_ai.Task.Record.{TaskRecord, transition}
use mama_ai.Task.Row.{TaskRow, from_row}
use mama_ai.TaskRegistry.{TaskRegistry, require_store, save_to}
use mama_ai.TaskRegistry.Restore.{recover, restore_rows, list_from, restore}

-- A restored record: filed under its task ID, and not running.
pub record IsStopped {J : Type 0} (id : String) (r : TaskRecord J) : Type 0 where
  pub keyed : r.task_id ≡ id
  pub stopped : r.status ≢ running

module _ {J Db : Type 0} (save_task : TaskRecord J → Exec Db (Unit {0}))
    (list_tasks : ℕ → Exec Db (List (TaskRow J))) where
  -- the in-memory records, which are replaced only at the end
  abbrev Kept : Dict (TaskRecord J) → TaskRegistry J Db → Type 0
  Kept d s = s.records ≡ d

  save_to-Kept :
      (db : Result Db) (r : TaskRecord J) (s : TaskRegistry J Db)
      → Ensures (λ u s'. Kept s.records s') (Kept s.records) (save_to save_task db r s)
  unfolding save_to
  save_to-Kept (err e) r s = raised e s refl
  save_to-Kept (ok db) r s =
      Ensures-lift (save_task r db).0 (record s { store = some (save_task r db).1 }) (λ u h. refl)
        refl

  list_from-Kept :
      (db : Result Db) (s : TaskRegistry J Db)
      → Ensures (λ u s'. Kept s.records s') (Kept s.records) (list_from save_task list_tasks db s)
  unfolding list_from
  list_from-Kept (err e) s = raised e s refl
  list_from-Kept (ok db) s =
      Ensures-lift (list_tasks 1000 db).0 (record s { store = some (list_tasks 1000 db).1 })
        (λ u h. refl) refl

  fails :
      (m e : Option String) (now : ℕ) (r r' : TaskRecord J)
      → r.status ≡ running
      → transition failed m e now r ≡ ok r'
      → r'.status ≢ running
  unfolding transition
  fails m e now r r' q h = ground arith

  recover_stops :
      (now : ℕ) (r : TaskRecord J) (s : TaskRegistry J Db)
      → Ensures
          (λ r' s'. (r'.status ≢ running) × Kept s.records s')
          (Kept s.records)
          (recover save_task list_tasks true now r s)
  unfolding recover
  recover_stops now r s = elim (Bool-cases (same r.status running)) [
    | inr e ↦ rw e (returned r s (ground arith, refl))
    | inl e ↦ rw e (
        Ensures-bind {P = λ r' s'. (r'.status ≢ running) × (s' ≡ s)}
          (lift (transition failed _ _ now r) s) _
          (Ensures-lift _ s (λ r' t. (fails _ _ now r r' (same_iff r.status running e) t, refl))
            refl)
          λ r' s1 h. rw h.1 (
            Ensures-bind (save_to save_task (require_store s.persistence_enabled s.store) r' s) _
              (save_to-Kept (require_store s.persistence_enabled s.store) r' s)
              λ u s2 k. returned r' s2 (h.0, k)))
  ]

  restore_rows-IsStopped :
      (clock : ℕ → ℕ) (i : ℕ) (d : Dict (TaskRecord J)) (rows : List (TaskRow J))
      → (s : TaskRegistry J Db) → Holds IsStopped d
      → Ensures
          (λ d' s'. Holds IsStopped d')
          (Kept s.records)
          (restore_rows save_task list_tasks true clock i d rows s)
  unfolding restore_rows
  restore_rows-IsStopped clock i d [] s h = returned d s h
  restore_rows-IsStopped clock i d (row ∷ rows) s h =
      Ensures-bind {P = λ r s'. s' ≡ s} (lift (from_row row) s) _
        (Ensures-lift (from_row row) s (λ r e. refl) refl)
        λ r s1 p. rw p (
          Ensures-bind (recover save_task list_tasks true (clock i) r s) _
            (recover_stops (clock i) r s)
            λ r' s2 q. rw (← q.1) (
              restore_rows-IsStopped clock (suc i) (Dict.put r'.task_id r' d) rows s2
                (Holds-put IsStopped r'.task_id r' d h (record { keyed = refl; stopped = q.0 }))))

  -- Whatever rows the store returns, a `restore` with recovery that returns leaves no record
  -- running and every record under its own task ID, and returns the number of records; one that
  -- raises leaves the records as they were.
  pub restore_stops :
      (clock : ℕ → ℕ) (s : TaskRegistry J Db)
      → Ensures
          (λ n s'. Holds IsStopped s'.records × (n ≡ length s'.records))
          (Kept s.records)
          (restore save_task list_tasks true clock s)
  unfolding restore
  restore_stops clock s =
      Ensures-bind (list_from save_task list_tasks (require_store s.persistence_enabled s.store) s)
        _ (list_from-Kept (require_store s.persistence_enabled s.store) s)
        λ rows s2 k. rw (← k) (
          Ensures-bind (restore_rows save_task list_tasks true clock 0 [] rows s2) _
            (restore_rows-IsStopped clock 0 [] rows s2 (Holds-empty IsStopped))
            λ d s3 stopped. returned _ _ (stopped, refl))
