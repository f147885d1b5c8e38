-- ===== src/Engine/Execute.antt =====
-- backend/app/core/engine.py: `MamaEngine.execute`.
use mama_ai.Prelude.{ℕ, String, Option, none, some, [], ◌∷◌, ◌++◌, if◌then◌else◌}
use mama_ai.Int.{ℤ}
use mama_ai.Dict
use mama_ai.Result.{Exc, Result, ok, err}
use mama_ai.Exec.{Exec, pure, lift, handle, ◌>>=◌, ◌>>◌}
use mama_ai.Task.{low, text, TaskRequest, TaskResult, new_request, new_succeeded, new_failed}
use mama_ai.TaskRegistry.{complete}
use mama_ai.Risk.{RiskAssessment, is_deny, needs_approval}
use mama_ai.Risk.Policy.{assess}
use mama_ai.Engine.{
  Output, Payload, command_output, risk_evidence, executor_evidence, task_started, task_succeeded,
  World, Env, Fresh, on_tasks, publish,
}
use mama_ai.Engine.Steps.{
  resolve_owner_id, extract_message, ensure_registered, start_task, fail_with, publish_failed,
  deny_task,
}
use mama_ai.Engine.Approve.{consume_approval}

-- The argument `task`: a request, or a command.
pub data Task : Type 0 where
  request : TaskRequest → Task
  command : String → Task

pub record Args : Type 0 where
  pub task : Task
  pub source : String
  pub autonomy_level : ℤ
  pub owner_id : Option String
  pub approval_id : Option String
  pub approval_token : Option String

-- the request that `execute` works on; `created` is a reading of `utc_now()`
unfoldable pub to_request : Task → String → ℤ → String → ℕ → Result TaskRequest
to_request (request r) source autonomy_level task_id created = ok r
to_request (command c) source autonomy_level task_id created = new_request (record {
  command = c;
  source = source;
  autonomy_level = autonomy_level;
  risk_level = low;
  task_id = task_id;
  metadata = [];
  created_at = created;
})

-- `request.risk_level = …` and `request.metadata["owner_id"] = …`
unfoldable pub stamp : TaskRequest → RiskAssessment → String → TaskRequest
stamp r a owner = record r {
  risk_level = a.risk_level;
  metadata = Dict.put "owner_id" (text owner) r.metadata;
}

-- `result.started_at = started_at`, unless that is `None`
unfoldable pub restart_at : Option ℕ → TaskResult Payload → TaskResult Payload
restart_at none r = r
restart_at (some t) r = record r { started_at = t }

-- A task that may go on: its request, assessment and owner.
pub record Ready : Type 0 where
  pub the_request : TaskRequest
  pub assessment : RiskAssessment
  pub owner : String

module _ {Db Ab : Type 0} (env : Env Db Ab) where
  -- the call of the executor
  unfoldable pub call_executor : String → Exec (World Db Ab) Output
  call_executor c w = (env.executor c, record w { executed = w.executed ++ c ∷ [] })

  -- the second `try`: owner, assessment, registration
  unfoldable pub prepare : TaskRequest → Option String → Fresh → Exec (World Db Ab) Ready
  prepare r owner_id fresh = do
    owner ← lift (resolve_owner_id r owner_id)
    assessment ← lift (assess env.search r.command fresh.assessment_id (fresh.now 8))
    ensure_registered env (stamp r assessment owner) owner
    pure (record { the_request = stamp r assessment owner; assessment = assessment; owner = owner })

  -- the `try` around the executor
  unfoldable pub run_executor : Ready → Option ℕ → Fresh → Exec (World Db Ab) (TaskResult Payload)
  run_executor t started_at fresh = do
    output ← call_executor t.the_request.command
    result ← lift (
        new_succeeded t.the_request.task_id (extract_message env.str_output output)
          (some (command_output output))
          (risk_evidence t.assessment.assessment_id t.assessment.risk_level t.assessment.decision
            ∷ executor_evidence env.executor_name
            ∷ [])
          (fresh.now 9) (fresh.now 10))
    on_tasks (complete env.save_task (restart_at started_at result) (fresh.now 11) (fresh.now 12))
    publish (task_succeeded t.the_request (restart_at started_at result))
    pure (restart_at started_at result)

  -- the completion of the handler: what it raises is logged
  unfoldable pub complete_quietly : TaskResult Payload → Fresh → Exec (World Db Ab) (Unit {0})
  complete_quietly result fresh w =
      handle ((on_tasks (complete env.save_task result (fresh.now 15) (fresh.now 16)) >> pure tt) w)
        (λ e. pure tt)

  -- its handler; a completion that raises is logged
  unfoldable pub executor_failed :
      Ready → Option ℕ → Fresh → Exc → Exec (World Db Ab) (TaskResult Payload)
  executor_failed t started_at fresh exc = do
    result ← lift (
        new_failed t.the_request.task_id "Mama AI could not complete the task." (env.str_exc exc)
          (fresh.now 13) (fresh.now 14))
    complete_quietly (restart_at started_at result) fresh
    publish_failed env t.the_request.task_id result.message (env.str_exc exc) "execution"
    pure (restart_at started_at result)

  unfoldable pub run_started :
      Ready → Fresh → Result (Option ℕ) × World Db Ab → Result (TaskResult Payload) × World Db Ab
  run_started t fresh (err e, w) =
      fail_with env t.the_request.task_id "Mama AI could not start the task." (env.str_exc e)
        "registration" (fresh.now 17) (fresh.now 18) w
  run_started t fresh (ok started_at, w) =
      handle ((publish (task_started t.the_request) >> run_executor t started_at fresh) w)
        (executor_failed t started_at fresh)

  -- `_mark_running` and what follows it
  unfoldable pub run_task : Ready → Fresh → Exec (World Db Ab) (TaskResult Payload)
  run_task t fresh w = run_started t fresh (start_task env t.the_request (fresh.now 19) w)

  unfoldable pub run_unless :
      Ready → Fresh → Option (TaskResult Payload) → Exec (World Db Ab) (TaskResult Payload)
  run_unless t fresh (some waiting_result) = pure waiting_result
  run_unless t fresh none = run_task t fresh

  -- what follows the registration
  unfoldable pub decide :
      Ready → Option String → Option String → Fresh → Exec (World Db Ab) (TaskResult Payload)
  decide t approval_id approval_token fresh =
      if is_deny t.assessment.decision
      then deny_task env t.the_request t.assessment fresh
      else if needs_approval t.assessment.decision
      then (consume_approval env t.the_request t.assessment t.owner approval_id approval_token fresh
          >>= run_unless t fresh)
      else run_task t fresh

  unfoldable pub decide_prepared :
      TaskRequest
      → Option String
      → Option String
      → Fresh
      → Result Ready × World Db Ab
      → Result (TaskResult Payload) × World Db Ab
  decide_prepared r approval_id approval_token fresh (err e, w) =
      fail_with env r.task_id "Mama AI could not register the task." (env.str_exc e) "registration"
        (fresh.now 20) (fresh.now 21) w
  decide_prepared r approval_id approval_token fresh (ok t, w) =
      decide t approval_id approval_token fresh w

  unfoldable pub execute_request :
      Result TaskRequest → Args → Fresh → Exec (World Db Ab) (TaskResult Payload)
  execute_request (err e) a fresh w =
      fail_with env fresh.task_id "The task request is invalid." (env.str_exc e) "validation"
        (fresh.now 22) (fresh.now 23) w
  execute_request (ok r) a fresh w =
      decide_prepared r a.approval_id a.approval_token fresh (prepare r a.owner_id fresh w)

  -- `execute`
  unfoldable pub execute : Args → Fresh → Exec (World Db Ab) (TaskResult Payload)
  execute a fresh =
      execute_request (to_request a.task a.source a.autonomy_level fresh.task_id (fresh.now 24)) a
        fresh
