-- ===== src/TaskRegistry.antt =====
-- backend/app/core/task_registry.py: `TaskRegistry`. Its lock makes each method one step, so a
-- method is an action on the registry. `Db` is the state of the attached store; what `save_task`
-- and `list_tasks` of the store do are parameters. Readings of `utc_now()` are arguments.
pub mod Rollback
pub mod Effect
pub mod Invariant
pub mod History
pub mod Restore
pub mod Recovery
pub mod Lookup
pub mod Progress
use mama_ai.Prelude.{
  ℕ, String, Bool, true, false, ◌&&◌, Option, none, some, List, [], ◌∷◌, ◌==◌, if◌then◌else◌,
  select, take, length, leb,
}
use mama_ai.Int.{ℤ, pos, negsuc}
use mama_ai.Text.{strip, is_empty}
use mama_ai.Dict
use mama_ai.Dict.{Dict}
use mama_ai.Result.{Exc, type_error, value_error, key_error, runtime_error, Result, ok, err}
use mama_ai.Exec.{
  Exec, pure, raise, lift, gets, or_raise, modify, or_restore, put_back, ◌>>=◌, ◌>>◌,
}
use mama_ai.Task.{
  TaskStatus, pending, running, waiting_approval, succeeded, failed, cancelled, rolled_back, Meta,
  text, TaskRequest, TaskResult, same,
}
use mama_ai.Task.Listing.{listing, check_limit, check_owner}
use mama_ai.Task.Record.{TaskRecord, from_request, transition, apply_result}

pub record TaskRegistry (J Db : Type 0) : Type 0 where
  pub records : Dict (TaskRecord J)
  pub store : Option Db
  pub persistence_enabled : Bool

-- `TaskRegistry._validate_task_id`
unfoldable pub validate_task_id : String → Result String
validate_task_id task_id =
    if is_empty (strip task_id)
    then err (value_error ("Task ID cannot be empty." ∷ []))
    else ok (strip task_id)

abbrev pub not_found : String → Exc
not_found task_id = key_error ("Task was not found: " ∷ task_id ∷ [])

-- `TaskRegistry._require_store`
abbrev pub require_store {ℓ} : {Db : Type ℓ} → Bool → Option Db → Result Db
require_store true (some db) = ok db
require_store _ _ = err (runtime_error ("Task persistence has not been enabled." ∷ []))

module _ {J Db : Type 0} where
  -- `TaskRegistry.__init__`
  abbrev pub new_registry : TaskRegistry J Db
  new_registry = record { records = []; store = none; persistence_enabled = false }

  abbrev pub set_record : String → TaskRecord J → TaskRegistry J Db → TaskRegistry J Db
  set_record id r s = record s { records = Dict.put id r s.records }

  abbrev pub pop_record : String → TaskRegistry J Db → TaskRegistry J Db
  pop_record id s = record s { records = Dict.pop id s.records }

  -- `attach` is the first half of `enable_persistence`
  unfoldable pub attach : Db → Exec (TaskRegistry J Db) (Unit {0})
  attach db s = (ok tt, record s { store = some db; persistence_enabled = true })

  -- `disable_persistence`
  unfoldable pub disable_persistence : Exec (TaskRegistry J Db) (Unit {0})
  disable_persistence s = (ok tt, record s { store = none; persistence_enabled = false })

  -- `TaskRegistry.get`; the record returned is a copy
  unfoldable pub get : String → Exec (TaskRegistry J Db) (Option (TaskRecord J))
  get task_id = do id ← lift (validate_task_id task_id); gets (λ s. Dict.get id s.records)

  -- `TaskRegistry.require`
  unfoldable pub require : String → Exec (TaskRegistry J Db) (TaskRecord J)
  require task_id = do found ← get task_id; or_raise found (not_found task_id)

  -- `TaskRegistry.clear`
  unfoldable pub clear : Exec (TaskRegistry J Db) (Unit {0})
  clear s = (ok tt, record s { records = [] })

  -- `TaskRegistry.list`
  unfoldable pub list :
      Option TaskStatus → Option String → Option ℤ → Exec (TaskRegistry J Db) (List (TaskRecord J))
  list status owner_id limit = do
    n ← lift (check_limit limit)
    owner ← lift (check_owner owner_id)
    gets (λ s. listing status owner n (Dict.values s.records))

  -- `TaskRegistry.count`
  unfoldable pub count : Option TaskStatus → Option String → Exec (TaskRegistry J Db) ℕ
  count status owner_id = do found ← list status owner_id none; pure (length found)

-- The methods that write, over what the attached store's `save_task` does.
module _ {J Db : Type 0} (save_task : TaskRecord J → Exec Db (Unit {0})) where
  unfoldable pub save_to : Result Db → TaskRecord J → Exec (TaskRegistry J Db) (Unit {0})
  save_to (err e) r s = (err e, s)
  save_to (ok db) r s = put_back (save_task r db) (λ db'. record s { store = some db' })

  -- `TaskRegistry._persist_locked`
  unfoldable pub persist : TaskRecord J → Exec (TaskRegistry J Db) (Unit {0})
  unfolding save_to
  persist r s =
      if s.persistence_enabled
      then save_to (require_store s.persistence_enabled s.store) r s
      else (ok tt, s)

  -- a write of one record, persisted or taken back
  unfoldable pub write_or :
      (TaskRegistry J Db → TaskRegistry J Db)
      → String
      → TaskRecord J
      → Exec (TaskRegistry J Db) (TaskRecord J)
  write_or restore id r = or_restore (modify (set_record id r) >> persist r) restore >> pure r

  -- the part of `register` behind the duplicate test
  unfoldable pub register_new :
      Option (TaskRecord J) → TaskRequest → Exec (TaskRegistry J Db) (TaskRecord J)
  register_new (some _) request =
      raise (value_error ("Task is already registered: " ∷ request.task_id ∷ []))
  register_new none request = do
    r ← lift (from_request request)
    write_or (pop_record request.task_id) request.task_id r

  -- `TaskRegistry.register`
  unfoldable pub register : TaskRequest → Exec (TaskRegistry J Db) (TaskRecord J)
  register request = do
    present ← gets (λ s. Dict.get request.task_id s.records)
    register_new present request

  -- The common body of `_transition` and `complete`: change the record under a key, persist it, and
  -- put the previous record back if either raises.
  unfoldable pub update :
      String → (TaskRecord J → Result (TaskRecord J)) → Exec (TaskRegistry J Db) (TaskRecord J)
  update id change = do
    found ← gets (λ s. Dict.get id s.records)
    previous ← or_raise found (not_found id)
    r ← or_restore (lift (change previous)) (set_record id previous)
    write_or (set_record id previous) id r

  -- `TaskRegistry._transition`
  unfoldable pub transition_task :
      String → TaskStatus → Option String → ℕ → Exec (TaskRegistry J Db) (TaskRecord J)
  transition_task task_id status message now = do
    id ← lift (validate_task_id task_id)
    update id (transition status message none now)

  -- `TaskRegistry.mark_running`
  unfoldable pub mark_running : String → ℕ → Exec (TaskRegistry J Db) (TaskRecord J)
  mark_running task_id now = transition_task task_id running none now

  -- `TaskRegistry.mark_waiting_approval`
  unfoldable pub mark_waiting_approval :
      String → String → ℕ → Exec (TaskRegistry J Db) (TaskRecord J)
  mark_waiting_approval task_id message now =
      transition_task task_id waiting_approval (some message) now

  -- `TaskRegistry.cancel`
  unfoldable pub cancel : String → String → ℕ → Exec (TaskRegistry J Db) (TaskRecord J)
  cancel task_id message now = transition_task task_id cancelled (some message) now

  -- `TaskRegistry.complete`; `now` and `later` are the readings of `apply_result`
  unfoldable pub complete : TaskResult J → ℕ → ℕ → Exec (TaskRegistry J Db) (TaskRecord J)
  complete result now later = update result.task_id (apply_result result now later)
