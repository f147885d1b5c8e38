-- ===== src/TaskRegistry/Lookup.antt =====
-- backend/app/core/task_registry.py: `register` followed by `get` or `register`.
use mama_ai.Prelude.{[], ◌∷◌, ◌≡◌, ◌≢◌, arith, false, none, some, eq_iff}
use mama_ai.Text.{strip, is_empty}
use mama_ai.Dict
use mama_ai.Dict.Laws.{get-put}
use mama_ai.Result.{ok, err, value_error}
use mama_ai.Exec.{Exec}
use mama_ai.Task.{TaskRequest}
use mama_ai.Task.Record.{TaskRecord}
use mama_ai.TaskRegistry.{TaskRegistry, get, register, register_new, validate_task_id}
use mama_ai.TaskRegistry.Effect.{register-put}

module _ {J Db : Type 0} (save_task : TaskRecord J → Exec Db (Unit {0})) where
  -- After a successful `register`, `get` with the task ID returns the record that `register`
  -- returned, if the ID is not empty and has no white space around it.
  pub get-register :
      (q : TaskRequest) (s : TaskRegistry J Db) {r : TaskRecord J}
      → (register save_task q s).0 ≡ ok r
      → strip q.task_id ≡ q.task_id
      → is_empty q.task_id ≡ false
      → (get q.task_id (register save_task q s).1).0 ≡ ok (some r)
  unfolding get validate_task_id
  get-register q s {r} h e n = ground (
    arith,
    register-put save_task q s {x = r},
    get-put q.task_id q.task_id r s.records,
    eq_iff q.task_id q.task_id,
  )

  -- After a successful `register` of a task ID with white space around it, `get` with this same ID
  -- finds nothing, if the stripped ID is not empty and was not registered.
  pub get-register_padded :
      (q : TaskRequest) (s : TaskRegistry J Db) {r : TaskRecord J}
      → (register save_task q s).0 ≡ ok r
      → strip q.task_id ≢ q.task_id
      → is_empty (strip q.task_id) ≡ false
      → Dict.get (strip q.task_id) s.records ≡ none
      → (get q.task_id (register save_task q s).1).0 ≡ ok none
  unfolding get validate_task_id
  get-register_padded q s {r} h e n g = ground (
    arith,
    register-put save_task q s {x = r},
    get-put q.task_id (strip q.task_id) r s.records,
    eq_iff q.task_id (strip q.task_id),
  )

  -- After a successful `register`, a `register` of a request with the same task ID raises a value
  -- error that names the ID, and leaves the registry as it is.
  pub register_twice :
      (q : TaskRequest) (p : TaskRequest) (s : TaskRegistry J Db) {r : TaskRecord J}
      → (register save_task q s).0 ≡ ok r
      → p.task_id ≡ q.task_id
      → let s' = (register save_task q s).1 in
        register save_task p s'
        ≡ (err (value_error ("Task is already registered: " ∷ p.task_id ∷ [])), s')
  unfolding register register_new
  register_twice q p s {r} h e = ground (
    arith,
    register-put save_task q s {x = r},
    get-put q.task_id p.task_id r s.records,
    eq_iff q.task_id p.task_id,
  )
