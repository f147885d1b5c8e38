-- ===== src/Engine/Approve.antt =====
-- backend/app/core/engine.py: the approval steps of `MamaEngine.execute`.
use mama_ai.Prelude.{ℕ, String, ◌&&◌, Option, none, some, List, [], ◌∷◌, ◌==◌, if◌then◌else◌, ◌+◌}
use mama_ai.Int.{pos}
use mama_ai.Text.{is_empty}
use mama_ai.Result.{Exc, Result, ok, err}
use mama_ai.Exec.{Exec, pure, lift, ◌>>=◌, ◌>>◌}
use mama_ai.Task.{pending, waiting_approval, TaskRequest, TaskResult, same, new_result}
use mama_ai.TaskRegistry.{require, mark_waiting_approval}
use mama_ai.Approval.{ApprovalRecord, is_active}
use mama_ai.Approval.Listing.{list}
use mama_ai.Approval.Registry.{create, consume}
use mama_ai.Risk.{RiskAssessment}
use mama_ai.Engine.{
  Payload, waiting, risk_evidence, approval_required, approval_invalid, approval_consumed, World,
  Env, Fresh, on_tasks, on_approvals, publish,
}

-- the loop of `_find_active_approval`
unfoldable pub find_active : String → List ApprovalRecord → Option ApprovalRecord
find_active task_id [] = none
find_active task_id (r ∷ rs) =
    if r.task_id == task_id && is_active r.status then some r else find_active task_id rs

-- `_waiting_result`
unfoldable pub waiting_result :
    TaskRequest
    → RiskAssessment
    → ApprovalRecord
    → String
    → Option String
    → Result (TaskResult Payload)
waiting_result request assessment approval message error = new_result (record {
  task_id = request.task_id;
  status = waiting_approval;
  message = message;
  output = some (waiting approval assessment);
  error = error;
  evidence = risk_evidence assessment.assessment_id assessment.risk_level assessment.decision ∷ [];
  started_at = request.created_at;
  finished_at = none;
})

-- `approval_id` or `approval_token` is `None` or empty
abbrev pub given : Option String → Option String → Option (String × String)
given (some id) (some token) =
    if is_empty id then none else if is_empty token then none else some (id, token)
given _ _ = none

module _ {Db Ab : Type 0} (env : Env Db Ab) where
  -- `_get_or_create_approval` behind `_find_active_approval`
  unfoldable pub use_or_create :
      TaskRequest
      → RiskAssessment
      → String
      → Fresh
      → Option ApprovalRecord
      → Exec (World Db Ab) ApprovalRecord
  use_or_create request assessment owner fresh (some existing) = pure existing
  use_or_create request assessment owner fresh none = on_approvals (
      create env.save_approval fresh.approval_id (fresh.now 4) request.task_id owner request.command
        assessment.risk_level assessment.reasons (pos 300))

  -- `_get_or_create_approval`; reading number `i` of the listing is `fresh.now (i + 100)`
  unfoldable pub get_or_create_approval :
      TaskRequest → RiskAssessment → String → Fresh → Exec (World Db Ab) ApprovalRecord
  get_or_create_approval request assessment owner fresh = do
    records ← on_approvals (list env.save_approval none (some owner) (λ i. fresh.now (i + 100)))
    use_or_create request assessment owner fresh (find_active request.task_id records)

  -- `if current.status == PENDING: mark_waiting_approval`
  unfoldable pub park_task : TaskRequest → String → ℕ → Exec (World Db Ab) (Unit {0})
  park_task request message now = do
    current ← on_tasks (require request.task_id)
    if same current.status pending
        then on_tasks (mark_waiting_approval env.save_task request.task_id message now) >> pure tt
        else pure tt

  -- `_request_approval`
  unfoldable pub request_approval :
      TaskRequest → RiskAssessment → String → Fresh → Exec (World Db Ab) (TaskResult Payload)
  request_approval request assessment owner fresh = do
    park_task request "This task requires explicit user approval." (fresh.now 5)
    approval ← get_or_create_approval request assessment owner fresh
    publish (approval_required request.task_id owner approval assessment)
    lift (
        waiting_result request assessment approval
          "This task is waiting for explicit user approval." none)

  -- the handler of a `consume` that raised
  unfoldable pub approval_failed :
      TaskRequest
      → RiskAssessment
      → String
      → Fresh
      → Exc
      → Exec (World Db Ab) (Option (TaskResult Payload))
  approval_failed request assessment owner fresh exc = do
    approval ← get_or_create_approval request assessment owner fresh
    park_task request "Approval validation failed. The task is still waiting for approval."
        (fresh.now 5)
    publish (approval_invalid request.task_id owner (env.str_exc exc) approval)
    result ← lift (
        waiting_result request assessment approval
          "Approval validation failed. The task is still waiting for approval."
          (some (env.str_exc exc)))
    pure (some result)

  -- what follows the attempt to consume
  unfoldable pub after_consume :
      TaskRequest
      → RiskAssessment
      → String
      → Fresh
      → Result ApprovalRecord × World Db Ab
      → Result (Option (TaskResult Payload)) × World Db Ab
  after_consume request assessment owner fresh (err e, w) =
      approval_failed request assessment owner fresh e w
  after_consume request assessment owner fresh (ok consumed, w) =
      (publish (approval_consumed request.task_id owner consumed) >> pure none) w

  unfoldable pub consume_given :
      TaskRequest
      → RiskAssessment
      → String
      → Fresh
      → Option (String × String)
      → Exec (World Db Ab) (Option (TaskResult Payload))
  consume_given request assessment owner fresh none w =
      (request_approval request assessment owner fresh >>= λ result. pure (some result)) w
  consume_given request assessment owner fresh (some (id, token)) w =
      after_consume request assessment owner fresh (
        on_approvals
          (consume env.save_approval env.hash_token id request.task_id owner token (fresh.now 6)
            (fresh.now 7))
          w)

  -- `_consume_approval`
  unfoldable pub consume_approval :
      TaskRequest
      → RiskAssessment
      → String
      → Option String
      → Option String
      → Fresh
      → Exec (World Db Ab) (Option (TaskResult Payload))
  consume_approval request assessment owner approval_id approval_token fresh =
      consume_given request assessment owner fresh (given approval_id approval_token)
