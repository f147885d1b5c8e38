-- ===== src/Engine/Steps.antt =====
-- backend/app/core/engine.py: the helpers of `MamaEngine.execute`.
use mama_ai.Prelude.{
  ℕ, String, Bool, true, false, not, ◌&&◌, Option, none, some, List, [], ◌∷◌, ◌==◌, if◌then◌else◌,
}
use mama_ai.Text.{strip, is_empty}
use mama_ai.Dict
use mama_ai.Result.{type_error, value_error, permission_error, Result, ok, err}
use mama_ai.Exec.{Exec, pure, raise, lift, ◌>>=◌, ◌>>◌}
use mama_ai.Task.{
  TaskStatus, pending, waiting_approval, Meta, text, object, TaskRequest, TaskResult, status_value,
  new_failed,
}
use mama_ai.Task.Record.{TaskRecord, or_default}
use mama_ai.TaskRegistry.{get, register, mark_running, complete, not_found}
use mama_ai.Risk.{RiskAssessment}
use mama_ai.Engine.{
  Output, null, dict, Payload, task_failed, task_denied, World, Env, Fresh, on_tasks, publish,
}

-- `_resolve_owner_id`
unfoldable pub check_owner : Meta → Result String
check_owner (object n) = err (type_error ("Owner ID must be text." ∷ []))
check_owner (text s) =
    if is_empty (strip s)
    then err (value_error ("Owner ID cannot be empty." ∷ []))
    else ok (strip s)

unfoldable pub resolve_owner_id : TaskRequest → Option String → Result String
resolve_owner_id request (some owner) = check_owner (text owner)
resolve_owner_id request none =
    check_owner (or_default (Dict.get "owner_id" request.metadata) (text "local-user"))

-- `existing.status in {PENDING, WAITING_APPROVAL}`
abbrev pub can_start : TaskStatus → Bool
can_start pending = true
can_start waiting_approval = true
can_start _ = false

-- `value.get(key)`: `None` at a missing key and at a key with `None`
unfoldable pub get_or_null : String → List (String × Option ℕ) → Option ℕ
get_or_null key d = or_default (Dict.get key d) none

-- `_extract_message`; `str_output` is `str`
unfoldable pub first_message : (Output → String) → List String → List (String × Option ℕ) → String
first_message str_output [] d = str_output (dict d)
first_message str_output (key ∷ keys) d =
    let rest = first_message str_output keys d in
    elim (get_or_null key d) [ none ↦ rest | some n ↦ str_output (Output.object n) ]

unfoldable pub extract_message : (Output → String) → Output → String
unfolding first_message
extract_message str_output null = "Task completed successfully."
extract_message str_output (dict d) =
    first_message str_output ("response" ∷ "message" ∷ "result" ∷ "output" ∷ []) d
extract_message str_output (Output.object n) = str_output (Output.object n)

module _ {Db Ab : Type 0} (env : Env Db Ab) where
  -- `_ensure_registered` behind its lookup
  unfoldable pub ensure_found :
      TaskRequest → String → Option (TaskRecord Payload) → Exec (World Db Ab) (TaskRecord Payload)
  ensure_found request owner none = on_tasks (register env.save_task request)
  ensure_found request owner (some existing) =
      if not (existing.owner_id == owner) && not (existing.owner_id == "local-user")
      then raise (permission_error ("Task is owned by another account." ∷ []))
      else if can_start existing.status
      then pure existing
      else raise (value_error ("Task is already registered: " ∷ request.task_id ∷ []))

  -- `_ensure_registered`
  unfoldable pub ensure_registered : TaskRequest → String → Exec (World Db Ab) (TaskRecord Payload)
  ensure_registered request owner = do
    existing ← on_tasks (get request.task_id)
    ensure_found request owner existing

  -- `_mark_running` behind its lookup
  unfoldable pub start_found :
      TaskRequest → ℕ → Option (TaskRecord Payload) → Exec (World Db Ab) (Option ℕ)
  start_found request now none = raise (not_found request.task_id)
  start_found request now (some r) =
      if can_start r.status
      then (do
        running ← on_tasks (mark_running env.save_task request.task_id now)
        pure running.started_at)
      else raise (value_error ("Task cannot start from status " ∷ status_value r.status ∷ "." ∷ []))

  -- `_mark_running`
  unfoldable pub start_task : TaskRequest → ℕ → Exec (World Db Ab) (Option ℕ)
  start_task request now = do found ← on_tasks (get request.task_id); start_found request now found

  -- `_publish_failed`
  abbrev pub publish_failed : String → String → String → String → Exec (World Db Ab) (Unit {0})
  publish_failed task_id message error stage = publish (task_failed task_id message error stage)

  -- a failed result that is published and returned, without touching the registry
  unfoldable pub fail_with :
      String → String → String → String → ℕ → ℕ → Exec (World Db Ab) (TaskResult Payload)
  fail_with task_id message error stage started finished = do
    result ← lift (new_failed task_id message error started finished)
    publish_failed task_id result.message error stage
    pure result

  abbrev pub first_reason : List String → String
  first_reason [] = "The command was denied by the security policy."
  first_reason (r ∷ rs) = r

  -- `_deny_task`
  unfoldable pub deny_task :
      TaskRequest → RiskAssessment → Fresh → Exec (World Db Ab) (TaskResult Payload)
  deny_task request assessment fresh = do
    result ← lift (
        new_failed request.task_id "Mama AI refused to execute this command."
          (first_reason assessment.reasons) (fresh.now 0) (fresh.now 1))
    on_tasks (complete env.save_task result (fresh.now 2) (fresh.now 3))
    publish (task_denied request.task_id (first_reason assessment.reasons) assessment)
    publish_failed request.task_id result.message (first_reason assessment.reasons) "risk_policy"
    pure result
